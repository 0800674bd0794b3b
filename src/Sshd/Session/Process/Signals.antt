-- ===== src/Sshd/Session/Process/Signals.antt =====
-- The signals of a session, whenever its process starts.
use mathlib.Core.List.{map-append}
use nokkud.Base.{
  All, Bytes, ℕ, refl, sym, ap, true, false, Option, none, some, List, [], map, append-nil,
  append_assoc, arith, ◌≡◌, ◌∙◌, ◌∷◌, ◌++◌,
}
use nokkud.Sshd.Session.Process.{kill_proc, set_proc, signal, signal_by_name}
use nokkud.Sshd.Session.{Sent, Session, signaled, killed}

-- What happens to a session's process: a signal request, the start and the kill.
pub data Act : Type 0 where
  signals : Option Bytes → Act
  starts : ℕ → Act
  kills : Act

unfoldable pub act : Act → Session → Session
act (signals name) s = signal name s
act (starts p) s = set_proc p s
act kills s = kill_proc s

unfoldable pub acts : List Act → Session → Session
acts [] s = s
acts (a ∷ l) s = acts l (act a s)

acts-append : (l m : List Act) (s : Session) → acts (l ++ m) s ≡ acts m (acts l s)
unfolding acts
acts-append [] m s = refl
acts-append (a ∷ l) m s = acts-append l m (act a s)

-- The signal of a request, if its name is in the table.
abbrev pub wanted_of : Option Bytes → List ℕ
wanted_of none = []
wanted_of (some name) = elim (signal_by_name name) [ none ↦ [] | some sig ↦ sig ∷ [] ]

-- The signals of the requests, in order.
abbrev pub wanted : List Act → List ℕ
wanted [] = []
wanted (signals name ∷ l) = wanted_of name ++ wanted l
wanted (_ ∷ l) = wanted l

abbrev pub to_proc : ℕ → List ℕ → List Sent
to_proc p = map (λ sig. signaled p sig)

-- Only signals are requested.
abbrev pub IsSignals : Act → Type 0
IsSignals (signals name) = Unit {0}
IsSignals _ = ⊥

record Pending (s : Session) (sigs : List ℕ) (t : Session) : Type 0 where
  pending : t.pending_signals ≡ s.pending_signals ++ sigs
  sent : t.sent ≡ s.sent
  proc : t.proc ≡ none
  want_kill : t.want_kill ≡ s.want_kill

signal-Pending :
    (name : Option Bytes) (s : Session) → s.proc ≡ none → Pending s (wanted_of name) (signal name s)
unfolding signal
signal-Pending none s e = record {
  pending = simp append-nil;
  sent = refl;
  proc = e;
  want_kill = refl;
}
signal-Pending (some name) s e = record {
  pending = ground (arith, append-nil s.pending_signals);
  sent = ground arith;
  proc = ground arith;
  want_kill = ground arith;
}

acts-Pending :
    (l : List Act) (s : Session) → All IsSignals l → s.proc ≡ none → Pending s (wanted l) (acts l s)
unfolding acts act
acts-Pending [] s h e = record {
  pending = simp append-nil;
  sent = refl;
  proc = e;
  want_kill = refl;
}
acts-Pending (signals name ∷ l) s h e =
    let a = signal-Pending name s e in
    let b = acts-Pending l (signal name s) h.1 a.proc in
    record {
      pending =
          b.pending
          ∙ ap (λ (x : List ℕ). x ++ wanted l) a.pending
          ∙ append_assoc s.pending_signals (wanted_of name) (wanted l);
      sent = b.sent ∙ a.sent;
      proc = b.proc;
      want_kill = b.want_kill ∙ a.want_kill;
    }
acts-Pending (starts p ∷ l) s h e = absurd h.0
acts-Pending (kills ∷ l) s h e = absurd h.0

signal-sent :
    (name : Option Bytes) (s : Session) (p : ℕ)
    → s.proc ≡ some p
    → ((signal name s).sent ≡ s.sent ++ to_proc p (wanted_of name))
      × ((signal name s).proc ≡ some p)
unfolding signal
signal-sent none s p e = (simp append-nil, e)
signal-sent (some name) s p e = (ground (arith, append-nil s.sent), ground arith)

acts-sent :
    (l : List Act) (s : Session) (p : ℕ)
    → All IsSignals l
    → s.proc ≡ some p
    → (acts l s).sent ≡ s.sent ++ to_proc p (wanted l)
unfolding acts act
acts-sent [] s p h e = simp append-nil
acts-sent (signals name ∷ l) s p h e =
    let a = signal-sent name s p e in
    acts-sent l (signal name s) p h.1 a.1
    ∙ ap (λ (x : List Sent). x ++ to_proc p (wanted l)) a.0
    ∙ append_assoc s.sent (to_proc p (wanted_of name)) (to_proc p (wanted l))
    ∙ ap (λ (x : List Sent). s.sent ++ x)
        (sym (map-append (λ sig. signaled p sig) (wanted_of name) (wanted l)))
acts-sent (starts q ∷ l) s p h e = absurd h.0
acts-sent (kills ∷ l) s p h e = absurd h.0

set_proc-running :
    (p : ℕ) (s : Session)
    → s.want_kill ≡ false
    → ((set_proc p s).sent ≡ s.sent ++ to_proc p s.pending_signals) × ((set_proc p s).proc ≡ some p)
unfolding set_proc
set_proc-running p s e = ground arith

set_proc-killed :
    (p : ℕ) (s : Session)
    → s.want_kill ≡ true
    → ((set_proc p s).sent ≡ s.sent ++ (killed p ∷ [])) × ((set_proc p s).proc ≡ s.proc)
unfolding set_proc
set_proc-killed p s e = ground arith

kill_proc-none :
    (s : Session)
    → s.proc ≡ none
    → ((kill_proc s).sent ≡ s.sent) × ((kill_proc s).proc ≡ none) × ((kill_proc s).want_kill ≡ true)
unfolding kill_proc
kill_proc-none s e = ground arith

-- A session whose process has not started and that is not to be killed.
pub record IsWaiting (s : Session) : Type 0 where
  pub proc : s.proc ≡ none
  pub want_kill : s.want_kill ≡ false
  pub pending : s.pending_signals ≡ []
  pub sent : s.sent ≡ []

module _ (early late : List Act) (p : ℕ) (s : Session) (w : IsWaiting s)
    (before : All IsSignals early) (behind : All IsSignals late) where
  -- Signals that arrive before the process starts are kept: the process gets every signal with a
  -- known name that the client sends before and after the start, once and in order.
  pub signals_delivered :
      (acts (early ++ (starts p ∷ late)) s).sent ≡ to_proc p (wanted early ++ wanted late)
  unfolding acts act
  signals_delivered =
      let t = acts early s in
      let b = acts-Pending early s before w.proc in
      let (sent, proc) = set_proc-running p t (b.want_kill ∙ w.want_kill) in
      let pending : t.pending_signals ≡ wanted early =
        b.pending ∙ ap (λ (x : List ℕ). x ++ wanted early) w.pending in
      ap (λ (x : Session). x.sent) (acts-append early (starts p ∷ late) s)
      ∙ acts-sent late (set_proc p t) p behind proc
      ∙ ap (λ (x : List Sent). x ++ to_proc p (wanted late))
          (sent
            ∙ ap (λ (x : List Sent). x ++ to_proc p t.pending_signals) (b.sent ∙ w.sent)
            ∙ ap (to_proc p) pending)
      ∙ sym (map-append (λ sig. signaled p sig) (wanted early) (wanted late))

  -- A session that is torn down before its process starts sends that process only the kill.
  pub killed_before_start : (acts (early ++ (kills ∷ starts p ∷ late)) s).sent ≡ killed p ∷ []
  unfolding acts act
  killed_before_start =
      let t = acts early s in
      let b = acts-Pending early s before w.proc in
      let (sent, proc, dead) = kill_proc-none t b.proc in
      let (sent', proc') = set_proc-killed p (kill_proc t) dead in
      let c = acts-Pending late (set_proc p (kill_proc t)) behind (proc' ∙ proc) in
      ap (λ (x : Session). x.sent) (acts-append early (kills ∷ starts p ∷ late) s)
      ∙ c.sent
      ∙ sent'
      ∙ ap (λ (x : List Sent). x ++ (killed p ∷ [])) (sent ∙ b.sent ∙ w.sent)
