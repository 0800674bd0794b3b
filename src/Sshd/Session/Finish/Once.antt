-- ===== src/Sshd/Session/Finish/Once.antt =====
-- A session ends once.
use nokkud.Base.{
  is_empty, Bool-cases, Option-cases, codes, ℤ, pos, negsuc, refl, inl, inr, true, false, Option,
  List, [], arith, ◌≤◌, ◌≡◌, ◌∙◌, ◌∷◌, ◌++◌,
}
use nokkud.Sshd.Session.Recording.{recording_full, recording_degraded_event}
use nokkud.Sshd.Session.{ExitMessage, Session, closed, ended, exit_status}
use nokkud.Sshd.Session.Finish.{
  exit, exit_process, finish, record_call, exit_code_to_u32, exit_with_signal,
}
use nokkud.Sshd.Session.Process.{ProcessState, process_signal}

-- The ways in which a session may end: by `exitProcess`, by an error with status 1, or by a full
-- recording.
pub data End : Type 0 where
  by_process : Option ProcessState → End
  by_error : End
  by_limit : End

unfoldable pub end : End → Session → Session
end (by_process st) s = exit_process st s
end by_error s = exit (pos 1) s
end by_limit s = recording_full s

unfoldable pub ends : List End → Session → Session
ends [] s = s
ends (e ∷ es) s = ends es (end e s)

-- The first end of a session.
pub record IsFirstEnd (s t : Session) : Type 0 where
  pub code : ℤ
  pub message : ExitMessage
  pub exited : t.exited ≡ true
  pub canceled : t.canceled ≡ true
  pub messages : t.exit_messages ≡ s.exit_messages ++ (message ∷ [])
  pub recorder : t.recorder ≡ record_call closed (record_call (ended code) s.recorder)

finish-IsFirstEnd :
    (code : ℤ) (m : ExitMessage) (s : Session) → s.exited ≡ false → IsFirstEnd s (finish code m s)
unfolding finish
finish-IsFirstEnd code m s e = record {
  code = code;
  message = m;
  exited = ground arith;
  canceled = ground arith;
  messages = ground arith;
  recorder = ground arith;
}

exit_process-IsFirstEnd :
    (st : Option ProcessState) (s : Session) → s.exited ≡ false → IsFirstEnd s (exit_process st s)
unfolding exit_process
exit_process-IsFirstEnd st s h = elim (Option-cases (process_signal st)) [
  | inl n ↦ rw (n, exit_process) (unfold exit in finish-IsFirstEnd _ _ s h)
  | inr ((name, code), n) ↦ elim (Bool-cases (is_empty name)) [
    | inl b ↦ rw (n, exit_process) (rw b (unfold exit in finish-IsFirstEnd _ _ s h))
    | inr b ↦ rw (n, exit_process) (rw b (unfold exit_with_signal in finish-IsFirstEnd _ _ s h))
  ]
]

end-IsFirstEnd : (e : End) (s : Session) → s.exited ≡ false → IsFirstEnd s (end e s)
unfolding end exit recording_full recording_degraded_event
end-IsFirstEnd (by_process st) s h = exit_process-IsFirstEnd st s h
end-IsFirstEnd by_error s h = finish-IsFirstEnd _ _ s h
end-IsFirstEnd by_limit s h =
    let t = recording_degraded_event (codes "size limit reached, session ended") s in
    let f = finish-IsFirstEnd (pos 1) (exit_status (exit_code_to_u32 (pos 1))) t h in
    record {
      code = f.code;
      message = f.message;
      exited = f.exited;
      canceled = f.canceled;
      messages = f.messages;
      recorder = f.recorder;
    }

record IsKept (s t : Session) : Type 0 where
  exited : t.exited ≡ true
  canceled : t.canceled ≡ s.canceled
  messages : t.exit_messages ≡ s.exit_messages
  recorder : t.recorder ≡ s.recorder

end-IsKept : (e : End) (s : Session) → s.exited ≡ true → IsKept s (end e s)
unfolding end exit recording_full recording_degraded_event finish exit_process exit_with_signal
end-IsKept e s h = ground arith

ends-IsKept : (es : List End) (s : Session) → s.exited ≡ true → IsKept s (ends es s)
unfolding ends
ends-IsKept [] s h = record { exited = h; canceled = refl; messages = refl; recorder = refl }
ends-IsKept (e ∷ es) s h =
    let a = end-IsKept e s h in
    let b = ends-IsKept es (end e s) a.exited in
    record {
      exited = b.exited;
      canceled = b.canceled ∙ a.canceled;
      messages = b.messages ∙ a.messages;
      recorder = b.recorder ∙ a.recorder;
    }

-- However many of its ends a session meets, in whatever order, only the first has an effect: the
-- client gets one exit message, the recorder gets its exit code and is closed once, and the
-- context is canceled.
pub ends_once :
    (e : End) (es : List End) (s : Session) → s.exited ≡ false → IsFirstEnd s (ends (e ∷ es) s)
unfolding ends
ends_once e es s h =
    let a = end-IsFirstEnd e s h in
    let b = ends-IsKept es (end e s) a.exited in
    record {
      code = a.code;
      message = a.message;
      exited = b.exited;
      canceled = b.canceled ∙ a.canceled;
      messages = b.messages ∙ a.messages;
      recorder = b.recorder ∙ a.recorder;
    }

-- The exit status on the wire is one byte: the process's code if it is one, else 1.
pub exit_code_to_u32_bounds : (code : ℤ) → exit_code_to_u32 code ≤ 255
unfolding exit_code_to_u32
exit_code_to_u32_bounds (pos n) = ground arith
exit_code_to_u32_bounds (negsuc n) = ground arith
