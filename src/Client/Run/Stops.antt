-- ===== src/Client/Run/Stops.antt =====
-- A daemon that the backend has rejected stops.
use nokkud.Client.Sync.{
  save_failed, forget, accepted, pending, rejected, unspecified, other, DaemonStatus,
}
use nokkud.Client.Run.{
  state_update, relay_open, unknown, receive_all, run_control_stream, Outcome, rejection,
  run_client, run_rounds, runs_on,
}
use nokkud.Client.Run.{rejection, stop, runs_on}
use nokkud.Base.{
  Bool-cases, any, Bytes, lookup, ℕ, refl, inl, inr, Bool, true, false, Option, none, some, List,
  [], arith, ◌≡◌, ◌∙◌, ◌⊎◌, ◌||◌, ◌∷◌, ◌++◌, if◌then◌else◌, nat_eq, bytes_eq,
}
use nokkud.State.Cache.{cas, cert_principals, clear, new_cache}
use nokkud.Client.Run.{Received, Round, SyncCall, is_rejection, state_update, sync}
use nokkud.Client.Sync.{Client, SyncResponse, forget, sync_daemon}

-- A client whose cache lets nobody in: no principal for any name, no active and no retired CA.
abbrev pub LetsNobodyIn : Client → Type 0
LetsNobodyIn c = ((u : Bytes) → cert_principals c.cache u ≡ []) × (cas c.cache ≡ ([], []))

-- A call that is answered with a rejection.
abbrev pub is_refusal : DaemonStatus → Bool
is_refusal rejected = true
is_refusal _ = false

abbrev pub is_refused : SyncCall → Bool
is_refused i = elim i.answer [ none ↦ false | some res ↦ is_refusal res.status ]

-- The calls of a stream, and of a run.
abbrev pub calls_of : List Received → List SyncCall
calls_of [] = []
calls_of (state_update i ∷ rs) = i ∷ calls_of rs
calls_of (_ ∷ rs) = calls_of rs

abbrev pub calls_of_rounds : List Round → List SyncCall
calls_of_rounds [] = []
calls_of_rounds (r ∷ rs) =
    (if r.dialed then calls_of r.received else []) ++ (r.then_sync ∷ calls_of_rounds rs)

any-append :
    (l m : List SyncCall)
    → any (λ i. is_refused i) (l ++ m) ≡ (any (λ i. is_refused i) l || any (λ i. is_refused i) m)
any-append [] m = refl
any-append (i ∷ l) m = ground (arith, any-append l m)

module _ (parse : Bytes → Option Bytes) where
  forget-LetsNobodyIn :
      (now : ℕ) (cache_saves config_saves : Bool) (c : Client)
      → LetsNobodyIn (forget parse now cache_saves config_saves c)
  unfolding forget clear new_cache cert_principals cas lookup
  forget-LetsNobodyIn now true true c = (λ u. refl, refl)
  forget-LetsNobodyIn now true false c = (λ u. refl, refl)
  forget-LetsNobodyIn now false true c = (λ u. refl, refl)
  forget-LetsNobodyIn now false false c = (λ u. refl, refl)

  -- What a part of a run ends with: a refusal just for a call that is refused.
  abbrev Told : List SyncCall → Client × Bool → Type 0
  Told calls (c, refused) =
      (refused ≡ true → LetsNobodyIn c) × (refused ≡ any (λ i. is_refused i) calls)

  saving : (b : Bool) → is_rejection (if b then none else some save_failed) ≡ false
  unfolding is_rejection
  saving true = refl
  saving false = refl

  sync-Told : (i : SyncCall) (c : Client) → Told (i ∷ []) (sync parse i c)
  unfolding sync is_rejection sync_daemon
  sync-Told i c = go i.answer
    where
      by_status :
          (res : SyncResponse) (st : DaemonStatus)
          → Told
              (record i { answer = some (record res { status = st }) } ∷ [])
              (sync parse (record i { answer = some (record res { status = st }) }) c)
      by_status res rejected = (λ e. forget-LetsNobodyIn i.now i.cache_saves i.config_saves c, refl)
      by_status res accepted =
          (λ e. absurd (ground (arith, saving i.cache_saves)), saving i.cache_saves)
      by_status res pending =
          (λ e. absurd (ground (arith, saving i.cache_saves)), saving i.cache_saves)
      by_status res unspecified = (λ e. absurd (ground arith), refl)
      by_status res (other n) =
          (λ e. absurd (ground (arith, saving i.cache_saves)), saving i.cache_saves)

      go :
          (o : Option SyncResponse)
          → Told (record i { answer = o } ∷ []) (sync parse (record i { answer = o }) c)
      go none = (λ e. absurd (ground arith), refl)
      go (some res) = by_status res res.status

  Told-nothing : (c : Client) → Told [] (c, false)
  Told-nothing c = (λ e. absurd (ground arith), refl)

  -- A part that goes on after a call which was not refused.
  Told-then :
      (calls more : List SyncCall) (p q : Client × Bool)
      → Told calls p
      → Told more q
      → p.1 ≡ false
      → Told (calls ++ more) q
  Told-then calls more p q t u e = (u.0, u.1 ∙ ground (arith, any-append calls more, t.1))

  Told-stop :
      (calls more : List SyncCall) (p : Client × Bool)
      → Told calls p
      → p.1 ≡ true
      → Told (calls ++ more) (p.0, true)
  Told-stop calls more p t e = (λ _. t.0 e, ground (arith, any-append calls more, t.1))

  receive_all-Told : (rs : List Received) (c : Client) → Told (calls_of rs) (receive_all parse rs c)
  unfolding receive_all
  receive_all-Told [] c = Told-nothing c
  receive_all-Told (state_update i ∷ rs) c = elim (Bool-cases (sync parse i c).1) [
    | inl e ↦ rw (e) (Told-stop (i ∷ []) (calls_of rs) (sync parse i c) (sync-Told i c) e)
    | inr e ↦ rw (e) (
        Told-then (i ∷ []) (calls_of rs) (sync parse i c) (receive_all parse rs (sync parse i c).0)
          (sync-Told i c) (receive_all-Told rs (sync parse i c).0) e)
  ]
  receive_all-Told (relay_open ∷ rs) c = receive_all-Told rs c
  receive_all-Told (unknown ∷ rs) c = receive_all-Told rs c

  run_control_stream-Told :
      (r : Round) (c : Client)
      → Told (if r.dialed then calls_of r.received else []) (run_control_stream parse r c)
  unfolding run_control_stream
  run_control_stream-Told r c = elim (Bool-cases r.dialed) [
    | inl e ↦ rw (e) (receive_all-Told r.received c)
    | inr e ↦ rw (e) (Told-nothing c)
  ]

  -- What a run ends with, given its calls.
  abbrev Ended : List SyncCall → Client × Outcome → Type 0
  Ended calls (c, outcome) =
      (outcome ≡ rejection → LetsNobodyIn c)
      × (outcome ≡ runs_on → any (λ i. is_refused i) calls ≡ false)

  Ended-rejected :
      (calls : List SyncCall) (more : List SyncCall) (p : Client × Bool)
      → Told calls p
      → p.1 ≡ true
      → Ended (calls ++ more) (p.0, rejection)
  Ended-rejected calls more p t e = (λ _. t.0 e, λ x. absurd (ground arith))

  Ended-then :
      (calls more : List SyncCall) (p : Client × Bool) (q : Client × Outcome)
      → Told calls p
      → p.1 ≡ false
      → Ended more q
      → Ended (calls ++ more) q
  Ended-then calls more p q t e u = (u.0, λ x. ground (arith, any-append calls more, t.1, u.1 x))

  abbrev stream_calls : Round → List SyncCall
  stream_calls r = if r.dialed then calls_of r.received else []

  abbrev then_synced : Round → Client → Client × Bool
  then_synced r c = sync parse r.then_sync (run_control_stream parse r c).0

  run_rounds-Ended :
      (rs : List Round) (c : Client) → Ended (calls_of_rounds rs) (run_rounds parse rs c)
  unfolding run_rounds
  run_rounds-Ended [] c = (λ e. absurd (ground arith), λ e. refl)
  run_rounds-Ended (r ∷ rs) c = elim (Bool-cases (run_control_stream parse r c).1) [
    | inl e ↦ rw (e) (
        Ended-rejected (stream_calls r) (r.then_sync ∷ calls_of_rounds rs)
          (run_control_stream parse r c) (run_control_stream-Told r c) e)
    | inr e ↦ elim (Bool-cases (r.done_after || r.done_waiting)) [
      | inl d ↦ rw (e, d) (λ x. absurd (ground arith), λ x. absurd (ground arith))
      | inr d ↦ elim (Bool-cases (then_synced r c).1) [
        | inl g ↦
            rw (e, d, g)
              (Ended-then (stream_calls r) (r.then_sync ∷ calls_of_rounds rs)
                (run_control_stream parse r c) ((then_synced r c).0, rejection)
                (run_control_stream-Told r c) e
                (Ended-rejected (r.then_sync ∷ []) (calls_of_rounds rs) (then_synced r c)
                  (sync-Told r.then_sync (run_control_stream parse r c).0) g))
        | inr g ↦
            rw (e, d, g)
              (Ended-then (stream_calls r) (r.then_sync ∷ calls_of_rounds rs)
                (run_control_stream parse r c) (run_rounds parse rs (then_synced r c).0)
                (run_control_stream-Told r c) e
                (Ended-then (r.then_sync ∷ []) (calls_of_rounds rs) (then_synced r c)
                  (run_rounds parse rs (then_synced r c).0)
                  (sync-Told r.then_sync (run_control_stream parse r c).0) g
                  (run_rounds-Ended rs (then_synced r c).0)))
      ]
    ]
  ]

  run_client-Ended :
      (first : SyncCall) (rounds : List Round) (c : Client)
      → Ended (first ∷ calls_of_rounds rounds) (run_client parse first rounds c)
  unfolding run_client
  run_client-Ended first rounds c = elim (Bool-cases (sync parse first c).1) [
    | inl e ↦ rw (e) (
        Ended-rejected (first ∷ []) (calls_of_rounds rounds) (sync parse first c)
          (sync-Told first c) e)
    | inr e ↦ rw (e) (
        Ended-then (first ∷ []) (calls_of_rounds rounds) (sync parse first c)
          (run_rounds parse rounds (sync parse first c).0) (sync-Told first c) e
          (run_rounds-Ended rounds (sync parse first c).0))
  ]

  -- `Run` returns because the backend has rejected the daemon, and then the cache in memory gives no
  -- name a principal and has neither an active nor a retired CA; or it stops with its context; or it goes on, and then no answer
  -- to any of its syncs was a rejection: not to the first, nor to one for a state update, nor to one
  -- after a lost stream.
  pub run_client_stops :
      (first : SyncCall) (rounds : List Round) (c : Client)
      → let (d, outcome) = run_client parse first rounds c in
        ((outcome ≡ rejection) × LetsNobodyIn d)
        ⊎ ((outcome ≡ stop)
            ⊎ ((outcome ≡ runs_on)
                × (any (λ i. is_refused i) (first ∷ calls_of_rounds rounds) ≡ false)))
  run_client_stops first rounds c =
      go (run_client parse first rounds c).1 refl (run_client-Ended first rounds c)
    where
      go :
          (outcome : Outcome)
          → (run_client parse first rounds c).1 ≡ outcome
          → Ended (first ∷ calls_of_rounds rounds) (run_client parse first rounds c)
          → ((outcome ≡ rejection) × LetsNobodyIn (run_client parse first rounds c).0)
            ⊎ ((outcome ≡ stop)
                ⊎ ((outcome ≡ runs_on)
                    × (any (λ i. is_refused i) (first ∷ calls_of_rounds rounds) ≡ false)))
      go rejection e v = inl (refl, v.0 e)
      go stop e v = inr (inl refl)
      go runs_on e v = inr (inr (refl, v.1 e))
