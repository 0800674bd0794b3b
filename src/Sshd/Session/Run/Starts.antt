-- ===== src/Sshd/Session/Run/Starts.antt =====
-- What a start leaves of a session: the command that it adds, and all else as it was.
use nokkud.Base.{
  is_empty, Option-cases, All, All-append, Bytes, codes, ℕ, refl, inl, inr, true, Option, none,
  some, List, [], arith, ◌≡◌, ◌⊎◌, ◌∷◌, ◌++◌, if◌then◌else◌,
}
use nokkud.Sshd.Session.Run.{
  Machine, shell_cmd, start_cmd, start_on_tty, start_piped, after_start, retry_start, start_in_home,
}
use nokkud.Sshd.Command.{Cmd, Credential, SysProcAttr, sys_proc_attr}
use nokkud.Sshd.Session.{Session}

-- A start adds the command, or one that differs in neither path, arguments nor credential, or nothing.
pub data Started (cmd : Cmd) (s t : Session) : Type 0 where
  not_yet : t ≡ s → Started cmd s t
  added :
      (c : Cmd)
      → t ≡ record s { execs = s.execs ++ (c ∷ []) }
      → c.path ≡ cmd.path
      → c.args ≡ cmd.args
      → c.attr.credential ≡ cmd.attr.credential
      → Started cmd s t

pub start_on_tty-Started :
    (m : Machine) (tty : Bytes) (cmd : Cmd) (s : Session)
    → Started cmd s (start_on_tty m tty cmd s).0
unfolding start_on_tty start_cmd
start_on_tty-Started m tty cmd s =
    added (record cmd { tty = some tty; attr = record cmd.attr { setctty = true } }) refl refl refl
      refl

pub start_piped-Started :
    (m : Machine) (cmd : Cmd) (s : Session) → Started cmd s (start_piped m cmd s).0
unfolding start_piped start_cmd
start_piped-Started m cmd s = elim (Option-cases m.stdin_pipe) [
  | inr e ↦ not_yet (ground arith)
  | inl e ↦ elim (Option-cases m.stdout_pipe) [
    | inr d ↦ not_yet (ground arith)
    | inl d ↦ added (record cmd { wait_delay = 1000 }) (ground arith) refl refl refl
  ]
]

-- The arguments of a shell.
abbrev pub shell_args : Machine → Session → List Bytes
shell_args m s =
    if is_empty s.raw_cmd
    then (b'-' ∷ m.base s.user.shell) ∷ []
    else m.base s.user.shell ∷ codes "-c" ∷ s.raw_cmd ∷ []

shell_cmd-shape :
    (m : Machine) (s : Session) (cmd : Cmd)
    → shell_cmd m s ≡ some cmd
    → (attr : SysProcAttr) × ((sys_proc_attr m.root m.id s.user ≡ some attr)
        × ((cmd.path ≡ s.user.shell) × ((cmd.args ≡ shell_args m s) × (cmd.attr ≡ attr))))
unfolding shell_cmd
shell_cmd-shape m s cmd e = elim (Option-cases (sys_proc_attr m.root m.id s.user)) [
  | inl d ↦ absurd (ground arith)
  | inr (attr, d) ↦ (attr, (d, (ground arith, (ground arith, ground arith))))
]

-- What holds of the path, the arguments and the credential of a command.
module _ (Good : Bytes → List Bytes → Option Credential → Type 0) where
  abbrev pub GoodCmd : Cmd → Type 0
  GoodCmd cmd = Good cmd.path cmd.args cmd.attr.credential

  -- It holds of the shell of a session.
  abbrev pub GoodShell : Machine → Session → Type 0
  GoodShell m s =
      (attr : SysProcAttr)
      → sys_proc_attr m.root m.id s.user ≡ some attr
      → Good s.user.shell (shell_args m s) attr.credential

  abbrev pub GoodExecs : Session → Type 0
  GoodExecs s = All GoodCmd s.execs

  pub Started-GoodExecs :
      {cmd : Cmd} {s t : Session} → Started cmd s t → GoodCmd cmd → GoodExecs s → GoodExecs t
  Started-GoodExecs (not_yet e) g h = rw (e) h
  Started-GoodExecs {cmd} {s} (added c e b a d) g h =
      rw (e) (All-append GoodCmd s.execs (c ∷ []) h (rw (b, a, d) g, tt))

  Started-GoodShell :
      (m : Machine) {cmd : Cmd} {s t : Session} → Started cmd s t → GoodShell m s → GoodShell m t
  Started-GoodShell m (not_yet e) g = rw (e) g
  Started-GoodShell m (added c e b a d) g = rw (e) g

  pub shell_cmd-Good :
      (m : Machine) (s : Session)
      → GoodShell m s
      → (cmd : Cmd) → shell_cmd m s ≡ some cmd
      → GoodCmd cmd
  shell_cmd-Good m s g cmd e =
      let (attr, (known, (path, (shape, same)))) = shell_cmd-shape m s cmd e in
      rw (path, shape, same) (g attr known)

  after_start-Good :
      (m : Machine) (start : Cmd → Session → Session × (ℕ ⊎ Option Bytes)) (s : Session)
      → ((cmd : Cmd) (t : Session) → Started cmd t (start cmd t).0)
      → GoodShell m s
      → GoodExecs s
      → (r : ℕ ⊎ Option Bytes) → GoodExecs (after_start m start (s, r)).0
  unfolding after_start retry_start
  after_start-Good m start s begins g h (inl pid) = h
  after_start-Good m start s begins g h (inr none) = h
  after_start-Good m start s begins g h (inr (some reason)) = go (shell_cmd m s) refl
    where
      go : (o : Option Cmd) → shell_cmd m s ≡ o → GoodExecs (retry_start start reason o s).0
      go none e = h
      go (some cmd) e =
          Started-GoodExecs (begins (record cmd { dir = codes "/" }) s) (shell_cmd-Good m s g cmd e)
            h

  pub start_in_home-Good :
      (m : Machine) (start : Cmd → Session → Session × (ℕ ⊎ Option Bytes)) (s : Session)
      → ((cmd : Cmd) (t : Session) → Started cmd t (start cmd t).0)
      → GoodShell m s
      → GoodExecs s
      → GoodExecs (start_in_home m start s).0
  unfolding start_in_home
  start_in_home-Good m start s begins g h = go (shell_cmd m s) refl
    where
      go : (o : Option Cmd) → shell_cmd m s ≡ o → GoodExecs (start_in_home m start s).0
      go none e = rw (start_in_home, e) h
      go (some cmd) e = rw (start_in_home, e) (begun (start cmd s) (begins cmd s))
        where
          begun :
              (p : Session × (ℕ ⊎ Option Bytes))
              → Started cmd s p.0
              → GoodExecs (after_start m start p).0
          begun (t, r) st =
              after_start-Good m start t begins (Started-GoodShell m st g)
                (Started-GoodExecs st (shell_cmd-Good m s g cmd e) h) r
