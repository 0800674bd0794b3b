-- ===== src/State/Principal/Grammar.antt =====
-- The matcher of principal.go against the language of its regular expression.
use nokkud.Base.{
  ltb, Bool-cases, and_split, length, All, Bytes, ℕ, suc, refl, inl, inr, true, not, [], arith, ◌≤◌,
  ◌≡◌, ◌↔◌, ◌⊎◌, ◌&&◌, ◌∷◌, ◌++◌,
}
use nokkud.State.Principal.{start_byte, name_byte, match_tail, validate_principal}

abbrev pub IsNameByte : ℕ → Type 0
IsNameByte c = name_byte c ≡ true

-- A word of `[A-Za-z0-9._-]*\$?`.
pub record IsTail (s : Bytes) : Type 0 where
  pub body : Bytes
  pub suffix : Bytes
  pub splits : s ≡ body ++ suffix
  pub body_bytes : All IsNameByte body
  pub suffix_is : (suffix ≡ []) ⊎ (suffix ≡ b'$' ∷ [])

-- A word of the whole expression.
pub record IsPosixUser (s : Bytes) : Type 0 where
  pub first : ℕ
  pub rest : Bytes
  pub splits : s ≡ first ∷ rest
  pub first_byte : start_byte first ≡ true
  pub tail : IsTail rest

IsTail-cons : (c : ℕ) {s : Bytes} → IsNameByte c → IsTail s → IsTail (c ∷ s)
IsTail-cons c h t = record {
  body = c ∷ t.body;
  suffix = t.suffix;
  splits = λ i. c ∷ t.splits i;
  body_bytes = (h, t.body_bytes);
  suffix_is = t.suffix_is;
}

IsTail-nil : IsTail []
IsTail-nil = record { body = []; suffix = []; splits = refl; body_bytes = tt; suffix_is = inl refl }

match_tail-IsTail : (s : Bytes) → match_tail s ≡ true → IsTail s
unfolding match_tail
match_tail-IsTail [] h = IsTail-nil
match_tail-IsTail (c ∷ []) h = elim (Bool-cases (name_byte c)) [
  | inl e ↦ IsTail-cons c e IsTail-nil
  | inr e ↦ record {
    body = [];
    suffix = c ∷ [];
    splits = refl;
    body_bytes = tt;
    suffix_is = inr (ground arith);
  }
]
match_tail-IsTail (c ∷ d ∷ cs) h =
    let (a, b) = and_split (name_byte c) (match_tail (d ∷ cs)) h in
    IsTail-cons c a (match_tail-IsTail (d ∷ cs) b)

match_tail-body :
    (body suffix : Bytes)
    → All IsNameByte body
    → (suffix ≡ []) ⊎ (suffix ≡ b'$' ∷ [])
    → match_tail (body ++ suffix) ≡ true
unfolding match_tail
match_tail-body [] suffix h e = ground arith
match_tail-body (c ∷ []) [] h e = ground arith
match_tail-body (c ∷ []) (d ∷ s) h e = ground (arith, match_tail-body [] (d ∷ s) tt e)
match_tail-body (c ∷ d ∷ body) suffix h e = ground (arith, match_tail-body (d ∷ body) suffix h.1 e)

validate_principal-parts :
    (c : ℕ) (cs : Bytes)
    → validate_principal (c ∷ cs)
      ≡ (not (ltb 32 (suc (length cs))) && (start_byte c && match_tail cs))
unfolding validate_principal
validate_principal-parts c cs = ground arith

sound : (s : Bytes) → validate_principal s ≡ true → (length s ≤ 32) × IsPosixUser s
sound [] h = absurd (unfold validate_principal in ground arith)
sound (c ∷ cs) h =
    let parts = validate_principal-parts c cs in
    let tail : match_tail cs ≡ true = ground arith in
    (
      ground arith,
      record {
        first = c;
        rest = cs;
        splits = refl;
        first_byte = ground arith;
        tail = match_tail-IsTail cs tail;
      },
    )

complete : (s : Bytes) → (length s ≤ 32) × IsPosixUser s → validate_principal s ≡ true
complete s (h, p) =
    let t : match_tail p.rest ≡ true =
      rw (p.tail.splits)
        (match_tail-body p.tail.body p.tail.suffix p.tail.body_bytes p.tail.suffix_is) in
    let n : length (p.first ∷ p.rest) ≤ 32 = rw p.splits at h in
    rw p.splits (ground (arith, validate_principal-parts p.first p.rest, p.first_byte))

-- A name is accepted exactly if it is a word of the expression and at most 32 bytes long.
pub validate_principal_iff :
    (s : Bytes) → (validate_principal s ≡ true) ↔ ((length s ≤ 32) × IsPosixUser s)
validate_principal_iff s = (sound s, complete s)
