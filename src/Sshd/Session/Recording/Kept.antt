-- ===== src/Sshd/Session/Recording/Kept.antt =====
-- What each request keeps true of the environment and the recorder of a session.
use mathlib.Core.Path.{subst}
use nokkud.Sshd.Session.Env.Safe.{IsEntry}
use nokkud.Base.{
  is_empty, Bool-cases, Option-cases, All, Bytes, codes, bytes_beq, bytes_beq_iff, has_prefix,
  lookup, is_some, get_or, ℕ, refl, inl, inr, Bool, true, false, not, Option, none, some, [], arith,
  ◌≡◌, ◌∙◌, ◌≢◌, ◌⊎◌, ◌&&◌, ◌||◌, nat_eq, bytes_eq,
}
use nokkud.Sshd.Session.Finish.{record_call}
use nokkud.Sshd.Session.Requests.{
  Outside, PtyRequest, handle_pty, open_pty, window_change, with_pty,
}
use nokkud.Sshd.Session.Env.{set_client_env, allowed_env, set_env}
use nokkud.Sshd.Policy.{Policy}
use nokkud.Sshd.Session.Env.Safe.{env_value-session_id, set_env-All}
use nokkud.Sshd.Session.Recording.{
  recording_degraded_event, recording_id, start_recorder, recorder_options,
}
use nokkud.Sshd.Auth.{Permissions, cert_ext}
use nokkud.Sshd.Session.{
  Recorder, RecorderOptions, Session, web_session, RecorderCall, reply, resized,
}

-- `webSession` of a login.
abbrev pub is_web : Permissions → Bool
is_web p =
    has_prefix (get_or (lookup (codes "nokku-cert-key-id") p.extensions) [])
      (codes "nokku:web:session:")

-- A recorder, if there is one, has the id.
abbrev pub RecordsAs : Bytes → Option Recorder → Type 0
RecordsAs id none = Unit {0}
RecordsAs id (some r) = r.options.session_id ≡ id

call-RecordsAs :
    (id : Bytes) (c : RecorderCall) (r : Option Recorder)
    → RecordsAs id r
    → RecordsAs id (record_call c r)
call-RecordsAs id c none h = tt
call-RecordsAs id c (some r) h = h

pub record Inv (p : Permissions) (id : Bytes) (s : Session) : Type 0 where
  pub permissions : s.permissions ≡ p
  pub session_id : s.session_id ≡ id
  pub entries : All (IsEntry (is_web p)) s.env
  pub recorded : is_web p ≡ false → RecordsAs id s.recorder

pub record Same (s t : Session) : Type 0 where
  pub permissions : t.permissions ≡ s.permissions
  pub session_id : t.session_id ≡ s.session_id
  pub env : t.env ≡ s.env
  pub recorder : t.recorder ≡ s.recorder

module _ {p : Permissions} {id : Bytes} where
  pub Same-Inv : {s t : Session} → Same s t → Inv p id s → Inv p id t
  Same-Inv k v = record {
    permissions = k.permissions ∙ v.permissions;
    session_id = k.session_id ∙ v.session_id;
    entries = rw k.env v.entries;
    recorded = λ w. rw k.recorder (v.recorded w);
  }

  recording_id-own :
      (canonical : Bytes → Bool) (s : Session)
      → Inv p id s
      → is_web p ≡ false
      → recording_id canonical s ≡ id
  unfolding recording_id
  recording_id-own canonical s v w =
      let none_set = env_value-session_id s.env (subst (λ b. All (IsEntry b) s.env) w v.entries) in
      ground (arith, none_set, v.session_id)

  recorder_options-own :
      (canonical : Bytes → Bool) (w h : ℕ) (s : Session)
      → Inv p id s
      → is_web p ≡ false
      → (recorder_options canonical w h s).session_id ≡ id
  unfolding recorder_options
  recorder_options-own canonical w h s v b = recording_id-own canonical s v b

  pub start_recorder-Inv :
      (canonical : Bytes → Bool) (new : RecorderOptions → Option Bytes) (policy : Policy) (w h : ℕ)
      (s : Session)
      → Inv p id s
      → Inv p id (start_recorder canonical new policy w h s)
  unfolding start_recorder recording_degraded_event
  start_recorder-Inv canonical new policy w h s v =
      elim (Bool-cases (is_some s.recorder || not policy.record_sessions)) [
        | inl e ↦ rw (e, start_recorder) v
        | inr e ↦ elim (Option-cases (new (recorder_options canonical w h s))) [
          | inl n ↦
              rw (e, n, start_recorder)
                (record {
                  permissions = v.permissions;
                  session_id = v.session_id;
                  entries = v.entries;
                  recorded = λ b. recorder_options-own canonical w h s v b;
                })
          | inr (err, n) ↦
              rw (e, n, start_recorder)
                (record {
                  permissions = v.permissions;
                  session_id = v.session_id;
                  entries = v.entries;
                  recorded = v.recorded;
                })
        ]
      ]

set_client_env_cases :
    (name value : Bytes) (s : Session)
    → let t = (set_client_env (some (name, value)) s).0 in
      (t ≡ s)
      ⊎ ((t ≡ record s { env = set_env name value s.env })
          × (allowed_env name ≡ true)
          × ((bytes_beq name (codes "NOKKU_SESSION_ID") ≡ false) ⊎ (is_web s.permissions ≡ true)))
unfolding set_client_env web_session
set_client_env_cases name value s = ground arith

term_allowed : allowed_env (codes "TERM") ≡ true
unfolding allowed_env codes bytes_beq
term_allowed = refl

term_other : codes "TERM" ≢ codes "NOKKU_SESSION_ID"
unfolding codes
term_other e = ground arith

module _ {p : Permissions} {id : Bytes} where
  pub set_client_env-Inv :
      (e : Option (Bytes × Bytes)) (s : Session) → Inv p id s → Inv p id (set_client_env e s).0
  set_client_env-Inv none s v = unfold set_client_env in v
  set_client_env-Inv (some (name, value)) s v = elim (set_client_env_cases name value s) [
    | inl e ↦ rw e v
    | inr (e, a, b) ↦ rw e (record {
      permissions = v.permissions;
      session_id = v.session_id;
      entries =
          set_env-All (is_web p) name value s.env a
            (λ n. ground (arith, b, v.permissions, bytes_beq_iff name (codes "NOKKU_SESSION_ID")))
            v.entries;
      recorded = v.recorded;
    })
  ]

  with_pty-Inv : (tty term : Bytes) (s : Session) → Inv p id s → Inv p id (with_pty tty term s)
  unfolding with_pty
  with_pty-Inv tty term s v = elim (Bool-cases (is_empty term)) [
    | inl e ↦
        rw (e, with_pty)
          (record {
            permissions = v.permissions;
            session_id = v.session_id;
            entries = v.entries;
            recorded = v.recorded;
          })
    | inr e ↦
        rw (e, with_pty)
          (record {
            permissions = v.permissions;
            session_id = v.session_id;
            entries =
                set_env-All (is_web p) (codes "TERM") term s.env term_allowed
                  (λ n. absurd (term_other n)) v.entries;
            recorded = v.recorded;
          })
  ]

  pub reply-Inv : (b : Bool) (s : Session) → Inv p id s → Inv p id (reply b s)
  reply-Inv b s v = record {
    permissions = v.permissions;
    session_id = v.session_id;
    entries = v.entries;
    recorded = v.recorded;
  }

  open_pty-Inv :
      (o : Outside) (r : PtyRequest) (s : Session) → Inv p id s → Inv p id (open_pty o r s)
  unfolding open_pty
  open_pty-Inv o r s v = elim (Option-cases o.open_pty) [
    | inl e ↦ rw (e, open_pty) (reply-Inv false s v)
    | inr (tty, e) ↦ elim (Bool-cases o.set_winsize) [
      | inl b ↦
          rw (e, b, open_pty)
            (reply-Inv true _ (
              start_recorder-Inv o.canonical o.new_recorder o.policy r.width r.height _
                (with_pty-Inv tty r.term s v)))
      | inr b ↦ rw (e, b, open_pty) (reply-Inv false s v)
    ]
  ]

  pub handle_pty-Inv :
      (o : Outside) (r : Option PtyRequest) (s : Session) → Inv p id s → Inv p id (handle_pty o r s)
  unfolding handle_pty
  handle_pty-Inv o none s v = reply-Inv false s v
  handle_pty-Inv o (some r) s v =
      elim (Bool-cases
        (s.handled || (is_some s.pty || not (cert_ext s.permissions (codes "permit-pty"))))) [
          | inl e ↦ rw (e, handle_pty) (reply-Inv false s v)
          | inr e ↦ rw (e, handle_pty) (open_pty-Inv o r s v)
        ]

  pub window_change-Inv :
      (o : Outside) (w : Option (ℕ × ℕ)) (s : Session) → Inv p id s → Inv p id (window_change o w s)
  unfolding window_change
  window_change-Inv o none s v = reply-Inv true s v
  window_change-Inv o (some (cols, rows)) s v = elim (Bool-cases (is_some s.pty && o.set_winsize)) [
    | inl e ↦
        rw (e, window_change)
          (record {
            permissions = v.permissions;
            session_id = v.session_id;
            entries = v.entries;
            recorded = λ b. call-RecordsAs id (resized cols rows) s.recorder (v.recorded b);
          })
    | inr e ↦ rw (e, window_change) (reply-Inv true s v)
  ]
