-- ===== src/Sshd/Session/Env.antt =====
-- internal/sshd/session.go: the environment that a client may set.
pub mod Safe
use nokkud.Base.{
  is_empty, leb, length, Bytes, codes, cut_prefix, has_prefix, ℕ, Bool, true, false, not, Option,
  none, some, List, [], ◌&&◌, ◌||◌, ◌∷◌, ◌++◌, ◌==◌, if◌then◌else◌, nat_eq, bytes_eq,
}
use nokkud.Sshd.Session.{Session, force_command, web_session}
use nokkud.Sshd.Account.{Account, split}

abbrev pub max_client_env : ℕ
max_client_env = 64

-- `allowedEnv`.
unfoldable pub allowed_env : Bytes → Bool
allowed_env name =
    name == codes "TERM"
    || (name == codes "LANG"
        || (name == codes "TZ"
            || (name == codes "TERM_PROGRAM"
                || (name == codes "COLORTERM"
                    || (name == codes "NOKKU_SESSION_ID" || has_prefix name (codes "LC_"))))))

-- `envValue`.
unfoldable pub env_value : Bytes → List Bytes → Option Bytes
env_value key [] = none
env_value key (e ∷ env) = elim (cut_prefix e (key ++ codes "=")) [
  | some v ↦ some v
  | none ↦ env_value key env
]

-- `setEnv`.
unfoldable pub set_env : Bytes → Bytes → List Bytes → List Bytes
set_env key value [] = (key ++ (codes "=" ++ value)) ∷ []
set_env key value (e ∷ env) =
    if has_prefix e (key ++ codes "=")
    then (key ++ (codes "=" ++ value)) ∷ env
    else e ∷ set_env key value env

-- `setClientEnv`; the payload is `none` if it does not unmarshal.
unfoldable pub set_client_env : Option (Bytes × Bytes) → Session → Session × Bool
set_client_env none s = (s, false)
set_client_env (some (name, value)) s =
    if s.handled || (leb max_client_env (length s.env) || not (is_empty (force_command s)))
    then (s, false)
    else if name == codes "NOKKU_SESSION_ID" && not (web_session s)
    then (s, false)
    else if not (allowed_env name)
    then (s, false)
    else (record s { env = set_env name value s.env }, true)

-- The loop over the variables that are inherited.
locale : (Bytes → Option Bytes) → List Bytes → List Bytes
locale inherited [] = []
locale inherited (key ∷ keys) = elim (inherited key) [
  | none ↦ locale inherited keys
  | some val ↦ (key ++ (codes "=" ++ val)) ∷ locale inherited keys
]

-- `cmdEnv`; `inherited` looks a variable of the daemon up.
unfoldable pub cmd_env : (Bytes → Option Bytes) → Account → List Bytes
unfolding locale
cmd_env inherited a =
    (codes "HOME=" ++ a.home)
    ∷ (codes "USER=" ++ a.name)
    ∷ (codes "LOGNAME=" ++ a.name)
    ∷ (codes "SHELL=" ++ a.shell)
    ∷ codes "PATH=/usr/local/bin:/usr/bin:/bin:/usr/local/sbin:/usr/sbin:/sbin"
    ∷ locale inherited
        (codes "LANG" ∷ codes "LC_ALL" ∷ codes "LC_CTYPE" ∷ codes "TZ" ∷ codes "MAIL" ∷ [])

-- `buildEnv`; `split` is `splitHostPort`.
unfoldable pub build_env : (Bytes → Option Bytes) → (Bytes → Bytes × Bytes) → Session → List Bytes
build_env inherited split s = cmd_env inherited s.user ++ (s.env ++ (connection ++ (tty ++ agent)))
  where
    connection : List Bytes
    connection =
        let (r_host, r_port) = split s.conn.remote_addr in
        let (l_host, l_port) = split s.conn.local_addr in
        (codes "SSH_CLIENT=" ++ (r_host ++ (codes " " ++ (r_port ++ (codes " " ++ l_port)))))
        ∷ (codes "SSH_CONNECTION="
            ++ (r_host
                ++ (codes " " ++ (r_port ++ (codes " " ++ (l_host ++ (codes " " ++ l_port)))))))
        ∷ []

    term : List Bytes
    term = elim (env_value (codes "TERM") s.env) [
      | some v ↦ []
      | none ↦ codes "TERM=xterm-256color" ∷ []
    ]

    tty : List Bytes
    tty = elim s.pty [ none ↦ [] | some name ↦ (codes "SSH_TTY=" ++ name) ∷ term ]

    agent : List Bytes
    agent = elim s.agent_sock [
      | none ↦ []
      | some sock ↦ if is_empty sock then [] else (codes "SSH_AUTH_SOCK=" ++ sock) ∷ []
    ]
