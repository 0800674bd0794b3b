-- ===== src/Sshd/Session/Env/Safe.antt =====
-- What a client can put into the environment of its command.
use nokkud.Base.{
  Bool-cases, All, Bytes, codes, bytes_beq, bytes_beq_iff, cut_prefix, has_prefix, ℕ, refl, inl,
  inr, Bool, true, false, none, List, [], arith, ◌≡◌, ◌≢◌, ◌∷◌, ◌++◌,
}
use nokkud.Sshd.Session.Env.{allowed_env, env_value, set_env}

-- An entry that a client may set, in a session that is a web session or not.
pub record IsEntry (web : Bool) (e : Bytes) : Type 0 where
  pub name : Bytes
  pub value : Bytes
  pub splits : e ≡ name ++ (codes "=" ++ value)
  pub allowed : allowed_env name ≡ true
  pub labelled : name ≡ codes "NOKKU_SESSION_ID" → web ≡ true

pub set_env-All :
    (web : Bool) (key value : Bytes) (env : List Bytes)
    → allowed_env key ≡ true
    → (key ≡ codes "NOKKU_SESSION_ID" → web ≡ true)
    → All (IsEntry web) env
    → All (IsEntry web) (set_env key value env)
unfolding set_env
set_env-All web key value [] a l h =
    (record { name = key; value = value; splits = refl; allowed = a; labelled = l }, tt)
set_env-All web key value (e ∷ env) a l h = elim (Bool-cases (has_prefix e (key ++ codes "="))) [
  | inl b ↦
      rw b (record { name = key; value = value; splits = refl; allowed = a; labelled = l }, h.1)
  | inr b ↦ rw b (h.0, set_env-All web key value env a l h.1)
]

-- A name that is allowed and begins with `N` is that of the session id.
name_n :
    (c : ℕ) (cs : Bytes)
    → allowed_env (c ∷ cs) ≡ true
    → c ≡ b'N'
    → bytes_beq (c ∷ cs) (codes "NOKKU_SESSION_ID") ≡ true
unfolding allowed_env codes bytes_beq has_prefix
name_n c cs a e = ground arith

nil_not_allowed : allowed_env [] ≡ false
unfolding allowed_env codes bytes_beq has_prefix
nil_not_allowed = refl

session_id_prefix : codes "NOKKU_SESSION_ID" ++ codes "=" ≡ codes "NOKKU_SESSION_ID="
unfolding codes
session_id_prefix = refl

cut_other :
    (c : ℕ) (cs : Bytes)
    → c ≢ b'N'
    → cut_prefix (c ∷ cs) (codes "NOKKU_SESSION_ID" ++ codes "=") ≡ none
unfolding cut_prefix codes
cut_other c cs h = ground arith

IsEntry-cut :
    (e : Bytes) → IsEntry false e → cut_prefix e (codes "NOKKU_SESSION_ID" ++ codes "=") ≡ none
IsEntry-cut e v = rw v.splits (go v.name v.allowed v.labelled)
  where
    go :
        (name : Bytes)
        → allowed_env name ≡ true
        → (name ≡ codes "NOKKU_SESSION_ID" → false ≡ true)
        → cut_prefix (name ++ (codes "=" ++ v.value)) (codes "NOKKU_SESSION_ID" ++ codes "=") ≡ none
    go [] a l = cc nil_not_allowed
    go (c ∷ cs) a l = cut_other c _ (λ n. cc (l ((bytes_beq_iff _ _).0 (name_n c cs a n))))

-- Outside a web session nothing in the environment names a recording.
pub env_value-session_id :
    (env : List Bytes) → All (IsEntry false) env → env_value (codes "NOKKU_SESSION_ID") env ≡ none
unfolding env_value
env_value-session_id [] h = refl
env_value-session_id (e ∷ env) h = rw (IsEntry-cut e h.0, env_value) (env_value-session_id env h.1)
