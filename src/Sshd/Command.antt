-- ===== src/Sshd/Command.antt =====
-- internal/sshd/account.go: the credentials of a command, and what `exec.Cmd` is told.
use nokkud.Base.{
  is_empty, Bytes, ℕ, Bool, true, false, not, Option, none, some, List, [], ◌∷◌, ◌++◌,
  if◌then◌else◌,
}
use nokkud.Sshd.Account.{Account, is_space, parse_uint32}

-- `strings.FieldsSeq`, on ASCII; `cur` is the field read so far.
fields_onto : Bytes → Bytes → List Bytes
fields_onto cur [] = if is_empty cur then [] else cur ∷ []
fields_onto cur (c ∷ cs) =
    let next = fields_onto [] cs in
    let more = fields_onto (cur ++ (c ∷ [])) cs in
    if not (is_space c) then more else if is_empty cur then next else cur ∷ next

-- The loop of `groupIDs`.
parse_ids : List Bytes → Option (List ℕ)
parse_ids [] = some []
parse_ids (g ∷ gs) = elim (parse_uint32 g) [
  | none ↦ none
  | some id ↦ elim (parse_ids gs) [ none ↦ none | some ids ↦ some (id ∷ ids) ]
]

-- `groupIDs`; the first argument is the output of `id -G` for a name, `none` if that fails.
unfoldable pub group_ids : (Bytes → Option Bytes) → Account → Option (List ℕ)
unfolding fields_onto parse_ids
group_ids id a = elim (id a.name) [ none ↦ none | some out ↦ parse_ids (fields_onto [] out) ]

-- `syscall.Credential`.
pub record Credential : Type 0 where
  pub uid : ℕ
  pub gid : ℕ
  pub groups : List ℕ

-- `syscall.SysProcAttr`, as far as it is set.
pub record SysProcAttr : Type 0 where
  pub setsid : Bool
  pub setctty : Bool
  pub credential : Option Credential

-- `sysProcAttr`; the first argument says that the daemon runs as root.
unfoldable pub sys_proc_attr : Bool → (Bytes → Option Bytes) → Account → Option SysProcAttr
sys_proc_attr root id a =
    if not root
    then some (record { setsid = true; setctty = false; credential = none })
    else elim (group_ids id a) [
      | none ↦ none
      | some groups ↦ some (record {
        setsid = true;
        setctty = false;
        credential = some (record { uid = a.uid; gid = a.gid; groups = groups });
      })
    ]

-- `exec.Cmd`, as far as it is set. `tty` is its terminal, `none` for pipes.
pub record Cmd : Type 0 where
  pub path : Bytes
  pub args : List Bytes
  pub dir : Bytes
  pub env : List Bytes
  pub attr : SysProcAttr
  pub tty : Option Bytes
  pub wait_delay : ℕ
