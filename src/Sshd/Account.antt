-- ===== src/Sshd/Account.antt =====
-- internal/sshd/account.go: the local account of a login. The output of `getent` and the content of
-- the nologin file are arguments.
use nokkud.Base.{
  is_empty, ltb, leb, Bytes, codes, ℕ, inl, inr, Bool, Option, none, some, List, [], reverse, ◌+◌,
  ◌-◌, ◌*◌, ◌^◌, ◌⊎◌, ◌&&◌, ◌||◌, ◌∷◌, ◌++◌, ◌==◌, if◌then◌else◌, nat_eq, bytes_eq,
}

-- `account`.
pub record Account : Type 0 where
  pub name : Bytes
  pub uid : ℕ
  pub gid : ℕ
  pub home : Bytes
  pub shell : Bytes

unfoldable pub is_space : ℕ → Bool
is_space c = c == b' ' || (leb 9 c && leb c 13)

drop_spaces : Bytes → Bytes
unfolding is_space
drop_spaces [] = []
drop_spaces (c ∷ cs) = let rest = drop_spaces cs in if is_space c then rest else c ∷ cs

-- `strings.TrimSpace` and `bytes.TrimSpace`, on ASCII.
unfoldable pub trim_space : Bytes → Bytes
unfolding drop_spaces
trim_space s = reverse (drop_spaces (reverse (drop_spaces s)))

-- `strings.Split(s, sep)` for a separator of one byte; `cur` is the part read so far.
split_onto : ℕ → Bytes → Bytes → List Bytes
split_onto sep cur [] = cur ∷ []
split_onto sep cur (c ∷ cs) =
    let next = cur ∷ split_onto sep [] cs in
    let more = split_onto sep (cur ++ (c ∷ [])) cs in if c == sep then next else more

unfoldable pub split : ℕ → Bytes → List Bytes
unfolding split_onto
split sep = split_onto sep []

-- The digits of `strconv.ParseUint(s, 10, _)`.
parse_digits : ℕ → Bytes → Option ℕ
parse_digits acc [] = some acc
parse_digits acc (c ∷ cs) =
    let rest = parse_digits (acc * 10 + (c - b'0')) cs in
    if leb b'0' c && leb c b'9' then rest else none

-- `strconv.ParseUint(s, 10, 32)`.
unfoldable pub parse_uint32 : Bytes → Option ℕ
unfolding parse_digits
parse_uint32 [] = none
parse_uint32 (c ∷ cs) = elim (parse_digits 0 (c ∷ cs)) [
  | none ↦ none
  | some n ↦ if ltb n (2 ^ 32) then some n else none
]

pub data AccountError : Type 0 where
  not_found bad_entry : Bytes → AccountError

-- The checks of `lookupAccount` on the seven fields of a passwd entry.
unfoldable pub account_of : Bytes → List Bytes → Account ⊎ AccountError
account_of name (n ∷ _ ∷ uid ∷ gid ∷ _ ∷ home ∷ shell ∷ []) =
    if n == name
    then elim (parse_uint32 uid) [
      | none ↦ inr (bad_entry name)
      | some u ↦ elim (parse_uint32 gid) [
        | none ↦ inr (bad_entry name)
        | some g ↦ inl (record {
          name = name;
          uid = u;
          gid = g;
          home = home;
          shell = if is_empty shell then codes "/bin/sh" else shell;
        })
      ]
    ]
    else inr (not_found name)
account_of name _ = inr (not_found name)

-- `lookupAccount`; `none` is a `getent` that fails.
unfoldable pub lookup_account : (Bytes → Option Bytes) → Bytes → Account ⊎ AccountError
unfolding account_of
lookup_account getent name = elim (getent name) [
  | none ↦ inr (not_found name)
  | some out ↦ account_of name (split b':' (trim_space out))
]

-- `loginAllowed`, the message of its error or `none`. The second argument is what reading the
-- nologin file gives, `none` if that fails.
unfoldable pub login_allowed : Account → Option Bytes → Option Bytes
login_allowed a nologin = if a.uid == 0 then none else elim nologin [
  | none ↦ none
  | some msg ↦
      if is_empty (trim_space msg)
      then some (codes "logins are disabled by /etc/nologin")
      else some (codes "logins are disabled: " ++ trim_space msg)
]
