-- ===== src/Users.antt =====
-- internal/sysutil/users.go: the accounts that the daemon reports. The output of `getent passwd` and
-- `slices.Sort` are arguments.
pub mod Reported
mod Tests
use nokkud.Base.{
  ltb, leb, length, take, Bytes, codes, ℤ, pos, negsuc, ltb_ℤ, beq_ℤ, ℕ, zero, suc, Bool, not,
  Option, none, some, List, [], ◌+◌, ◌-◌, ◌*◌, ◌^◌, ◌&&◌, ◌||◌, ◌∷◌, ◌==◌, if◌then◌else◌, nat_eq,
  bytes_eq,
}
use nokkud.Sshd.Account.{split}
use nokkud.Recording.Retention.{has_suffix}

-- `maxReportedUsers`.
abbrev pub max_reported_users : ℕ
max_reported_users = 200

digits : ℕ → Bytes → Option ℕ
digits acc [] = some acc
digits acc (c ∷ cs) =
    let rest = digits (acc * 10 + (c - b'0')) cs in if leb b'0' c && leb c b'9' then rest else none

unsigned : Bytes → Option ℕ
unfolding digits
unsigned [] = none
unsigned (c ∷ cs) = digits 0 (c ∷ cs)

-- `strconv.Atoi`, with 64-bit integers.
unfoldable pub atoi : Bytes → Option ℤ
unfolding unsigned
atoi [] = none
atoi (c ∷ cs) =
    if c == b'-'
    then elim (unsigned cs) [
      | none ↦ none
      | some zero ↦ some (pos 0)
      | some (suc n) ↦ if ltb n (2 ^ 63) then some (negsuc n) else none
    ]
    else elim (if c == b'+' then unsigned cs else unsigned (c ∷ cs)) [
      | none ↦ none
      | some n ↦ if ltb n (2 ^ 63) then some (pos n) else none
    ]

-- `isValidSSHUser`.
unfoldable pub is_valid_ssh_user : ℤ → Bytes → Bool
is_valid_ssh_user uid login =
    (beq_ℤ uid (pos 0) || not (ltb_ℤ uid (pos 1000)))
    && (not (has_suffix login (codes "nologin"))
        && (not (has_suffix login (codes "false")) && not (has_suffix login (codes "sync"))))

-- The name of a line, if it is reported.
unfoldable pub user_of : List Bytes → Option Bytes
user_of (name ∷ _ ∷ uid ∷ _ ∷ _ ∷ _ ∷ login ∷ []) = elim (atoi uid) [
  | none ↦ none
  | some n ↦ if is_valid_ssh_user n login then some name else none
]
user_of _ = none

-- The loop over the lines; an empty line has one field and so is skipped like the others.
unfoldable pub users_of : List Bytes → List Bytes
unfolding user_of
users_of [] = []
users_of (line ∷ lines) = elim (user_of (split b':' line)) [
  | none ↦ users_of lines
  | some name ↦ name ∷ users_of lines
]

-- `capUsers`.
unfoldable pub cap_users : (List Bytes → List Bytes) → List Bytes → List Bytes
cap_users sort users =
    if ltb max_reported_users (length (sort users))
    then take max_reported_users (sort users)
    else sort users

-- `SystemUsers`; `none` is a `getent` that fails.
unfoldable pub system_users : (List Bytes → List Bytes) → Option Bytes → List Bytes
unfolding users_of cap_users
system_users sort none = []
system_users sort (some listing) = cap_users sort (users_of (split 10 listing))
