-- ===== src/Users/Reported.antt =====
-- Which accounts are reported.
use mathlib.Core.List.{Permᴰ, Memᴰ}
use mathlib.Core.List.Memᴰ.{head, tail}
use nokkud.Users.{atoi, is_valid_ssh_user}
use nokkud.Recording.Retention.{has_suffix}
use mathlib.Core.List.Permᴰ.{symm}
use nokkud.Base.{
  ltb, Bool-cases, Option-cases, length, drop, length-append, length-take, All, ==_self, Bytes,
  codes, ℤ, pos, negsuc, ℕ, refl, ap, inl, inr, true, false, some, List, [], arith, All-perm,
  All-take, ◌+◌, ◌-◌, ◌≤◌, ◌≡◌, ◌∙◌, ◌⊎◌, ◌∷◌, ◌++◌, nat_eq, bytes_eq,
}
use nokkud.Client.Relay.{read}
use nokkud.Users.{cap_users, max_reported_users, system_users, user_of, users_of}
use nokkud.Sshd.Account.{split}

-- A text ends with another.
abbrev pub EndsWith : Bytes → Bytes → Type 0
EndsWith s suffix = (front : Bytes) × (s ≡ front ++ suffix)

-- An entry of passwd: seven fields, of which the first is the name, the third a uid that is 0 or at
-- least 1000, and the last a shell whose name does not end in nologin, false or sync.
pub record IsEntry (fields : List Bytes) (name : Bytes) : Type 0 where
  pub passwd : Bytes
  pub uid : Bytes
  pub gid : Bytes
  pub gecos : Bytes
  pub home : Bytes
  pub login : Bytes
  pub number : ℕ
  pub has_fields : fields ≡ name ∷ passwd ∷ uid ∷ gid ∷ gecos ∷ home ∷ login ∷ []
  pub is_number : atoi uid ≡ some (pos number)
  pub is_person : (number ≡ 0) ⊎ (1000 ≤ number)
  pub not_nologin : ¬ EndsWith login (codes "nologin")
  pub not_false : ¬ EndsWith login (codes "false")
  pub not_sync : ¬ EndsWith login (codes "sync")

-- One of the lines is such an entry with this name.
abbrev pub IsLogin : List Bytes → Bytes → Type 0
IsLogin lines name = (line : Bytes) × (Memᴰ line lines × IsEntry (split b':' line) name)

drop-front : (front suffix : Bytes) → drop (length front) (front ++ suffix) ≡ suffix
drop-front [] suffix = refl
drop-front (c ∷ front) suffix = drop-front front suffix

has_suffix-EndsWith : (s suffix : Bytes) → EndsWith s suffix → has_suffix s suffix ≡ true
unfolding has_suffix
has_suffix-EndsWith s suffix (front, e) =
    rw (e, length-append front suffix)
      (rw (start, drop-front front suffix) (ground (arith, ==_self suffix)))
  where
    start : (length front + length suffix) - length suffix ≡ length front
    start = omega arith

no_suffix : (s suffix : Bytes) → has_suffix s suffix ≡ false → ¬ EndsWith s suffix
no_suffix s suffix h e = absurd (ground (arith, h, has_suffix-EndsWith s suffix e))

-- A uid and a shell that are let through.
is_valid_ssh_user-facts :
    (uid : ℤ) (login : Bytes)
    → is_valid_ssh_user uid login ≡ true
    → ((n : ℕ) × ((uid ≡ pos n) × ((n ≡ 0) ⊎ (1000 ≤ n))))
      × ((has_suffix login (codes "nologin") ≡ false)
          × ((has_suffix login (codes "false") ≡ false)
              × (has_suffix login (codes "sync") ≡ false)))
unfolding is_valid_ssh_user
is_valid_ssh_user-facts (pos n) login h =
    ((n, (refl, ground arith)), (ground arith, (ground arith, ground arith)))
is_valid_ssh_user-facts (negsuc n) login h = absurd (ground arith)

entry_facts :
    (passwd uid gid gecos home login name found : Bytes)
    → user_of (name ∷ passwd ∷ uid ∷ gid ∷ gecos ∷ home ∷ login ∷ []) ≡ some found
    → (n : ℤ) × ((atoi uid ≡ some n) × ((is_valid_ssh_user n login ≡ true) × (name ≡ found)))
unfolding user_of
entry_facts passwd uid gid gecos home login name found h = elim (Option-cases (atoi uid)) [
  | inl e ↦ absurd (ground arith)
  | inr (n, e) ↦ elim (Bool-cases (is_valid_ssh_user n login)) [
    | inl v ↦ (n, (e, (v, ground arith)))
    | inr v ↦ absurd (ground arith)
  ]
]

user_of-IsEntry :
    (fields : List Bytes) (name : Bytes) → user_of fields ≡ some name → IsEntry fields name
unfolding user_of
user_of-IsEntry [] name h = absurd (ground arith)
user_of-IsEntry (_ ∷ []) name h = absurd (ground arith)
user_of-IsEntry (_ ∷ _ ∷ []) name h = absurd (ground arith)
user_of-IsEntry (_ ∷ _ ∷ _ ∷ []) name h = absurd (ground arith)
user_of-IsEntry (_ ∷ _ ∷ _ ∷ _ ∷ []) name h = absurd (ground arith)
user_of-IsEntry (_ ∷ _ ∷ _ ∷ _ ∷ _ ∷ []) name h = absurd (ground arith)
user_of-IsEntry (_ ∷ _ ∷ _ ∷ _ ∷ _ ∷ _ ∷ []) name h = absurd (ground arith)
user_of-IsEntry (_ ∷ _ ∷ _ ∷ _ ∷ _ ∷ _ ∷ _ ∷ _ ∷ _) name h = absurd (ground arith)
user_of-IsEntry (first ∷ passwd ∷ uid ∷ gid ∷ gecos ∷ home ∷ login ∷ []) name h =
    let (n, (read, (valid, same))) = entry_facts passwd uid gid gecos home login first name h in
    let ((number, (is, person)), (nologin, (no_false, no_sync))) =
      is_valid_ssh_user-facts n login valid in
    record {
      passwd = passwd;
      uid = uid;
      gid = gid;
      gecos = gecos;
      home = home;
      login = login;
      number = number;
      has_fields = ap (λ f. f ∷ passwd ∷ uid ∷ gid ∷ gecos ∷ home ∷ login ∷ []) same;
      is_number = read ∙ ap (λ k. some k) is;
      is_person = person;
      not_nologin = no_suffix login (codes "nologin") nologin;
      not_false = no_suffix login (codes "false") no_false;
      not_sync = no_suffix login (codes "sync") no_sync;
    }

IsLogin-cons :
    (line : Bytes) (lines names : List Bytes)
    → All (IsLogin lines) names
    → All (IsLogin (line ∷ lines)) names
IsLogin-cons line lines [] h = tt
IsLogin-cons line lines (n ∷ names) h =
    ((h.0.0, (tail h.0.1.0, h.0.1.1)), IsLogin-cons line lines names h.1)

users_of-All : (lines : List Bytes) → All (IsLogin lines) (users_of lines)
unfolding users_of
users_of-All [] = tt
users_of-All (line ∷ lines) = elim (Option-cases (user_of (split b':' line))) [
  | inl e ↦ rw (e, users_of) (IsLogin-cons line lines (users_of lines) (users_of-All lines))
  | inr (name, e) ↦
      let rest = IsLogin-cons line lines (users_of lines) (users_of-All lines) in
      rw (e, users_of) ((line, (head refl, user_of-IsEntry (split b':' line) name e)), rest)
]

-- If sorting only reorders, at most 200 names are reported, and each is the name of a passwd line
-- of seven fields whose uid is 0 or at least 1000 and whose shell does not end in nologin, false or
-- sync.
pub system_users-IsLogin :
    (sort : List Bytes → List Bytes) (listing : Bytes)
    → ((names : List Bytes) → Permᴰ (sort names) names)
    → (length (system_users sort (some listing)) ≤ max_reported_users)
      × All (IsLogin (split 10 listing)) (system_users sort (some listing))
unfolding system_users cap_users
system_users-IsLogin sort listing p =
    let lines = split 10 listing in
    let names = users_of lines in
    let h = All-perm (IsLogin lines) (symm (p names)) (users_of-All lines) in
    elim (Bool-cases (ltb max_reported_users (length (sort names)))) [
      | inl e ↦ rw e (
        ground (arith, length-take max_reported_users (sort names)),
        All-take (IsLogin lines) max_reported_users (sort names) h,
      )
      | inr e ↦ rw e (ground arith, h)
    ]
