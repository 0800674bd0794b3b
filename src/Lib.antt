-- ===== src/Lib.antt =====
-- nokkud is the daemon of a host that users log in to with SSH certificates. A backend tells it who
-- may log in; the daemon runs its own SSH server and records the sessions.
--
-- The parts, and the files that model them:
--   State/Principal  internal/state/principal.go: the names that may log in at all.
--   State/Cache      internal/state/cache.go: what the last sync left, and its file. The lock of the
--                    cache makes every operation one step.
--   Certificate, Addr
--                    the records of golang.org/x/crypto/ssh and net/netip that the daemon reads.
--   Sshd/Audit       internal/sshd/audit.go: the audit log, as the list of the lines written.
--   Sshd/Policy      internal/sshd/server.go, PolicyFrom.
--   Sshd/Trust       internal/sshd/auth.go, SetTrust and trustedCAWire.
--   Sshd/Account, Sshd/Command
--                    internal/sshd/account.go: lookupAccount and loginAllowed, and the credentials of
--                    a command.
--   Sshd/Auth        internal/sshd/auth.go, publicKeyCallback and verifiedPublicKey.
--   Sshd/Startup     internal/sshd/server.go, acquireStartup and what it returns. The steps of
--                    Startup/Slots are handshakes that start, give their slot back and take the lock.
--   Sshd/Live        internal/sshd/server.go, DropRevoked. The steps of Live/Revoke are the writes of
--                    a sync, the registration of a connection and a run of DropRevoked, one
--                    connection at a time.
--   Sshd/Forward     internal/sshd/forward.go: channel slots and remote forwards. Forward/Slots has
--                    the goroutines of a connection as steps.
--   Sshd/Session     internal/sshd/session.go, signal.go and agent.go: Requests is the request loop,
--                    Env the environment, Process the signals, Finish the end, Recording the start of
--                    a recording, Run the handlers of a command and of sftp (sftp.go) from the start
--                    of the process to its end, with what happens in between as a list.
--   Sshd/Serve       internal/sshd/server.go and forward.go: the accept loop with its slots and delay,
--                    the channels of a connection, direct-tcpip and the global requests.
--   Recording/Recorder
--                    internal/recording/recorder.go: events, split characters, limit and closing.
--                    Boundary and Cut are about UTF-8, Decoded about what a reader of the recording
--                    decodes.
--   Recording/Retention
--                    internal/recording/retention.go, enforceRetention.
--   Recording/Uploader
--                    internal/recording/uploader.go: a live upload, with the actions of the writer,
--                    the closer and the sender in any order. Uploader/Complete composes it with the
--                    closing of the recorder.
--   Recording/Pending
--                    internal/recording/pending.go: the upload of finished recordings.
--   Recording/Labels internal/recording/sanitize.go and recordingPattern of retention.go: the names
--                    of the files.
--   Hostcerts        internal/hostcerts/certs.go: Clock has the times as time.Time and float64 hold
--                    them, Window the time without a renewal, Renewed and Next the renewals.
--   Client/Sync      internal/client/sync.go and enroll of client.go: syncDaemon is composed of the
--                    operations of State/Cache, Sshd/Policy, Sshd/Trust and Sshd/Live.
--   Client/Run       the loops of internal/client/client.go, connect.go and watcher.go, composed of
--                    Client/Sync and Hostcerts.
--   Client/Relay     internal/client/relay.go: a connection over a stream of frames.
--   Daemon           main.go: loadState, the decision of run to enroll, enroll and reset, composed of
--                    Client/Sync and Sshd/Trust.
--   Interfaces       internal/sysutil/meta.go: the addresses that the daemon reports.
--   Users            internal/sysutil/users.go: the accounts that a sync reports.
--   Base             what the files share; the modules named Tests run the code on examples.
--
-- How the code is written here: a function of the source is a function of the same name. A method
-- that changes its receiver takes the old state and gives the new one; what it sends, starts, closes
-- or logs is a field of the state or a part of the result. A buffered channel of empty structs is
-- the number of its elements. A string is the list of its bytes and a Go map an association list. A
-- time is a number of nanoseconds. A wire integer keeps its width (% 2 ^ 16, % 2 ^ 32).
-- Outside, and so arguments: the certificate checker and the key parser of the ssh package, JSON,
-- getent, the nologin file, Listen, ptys, processes, the file system, the clock, the compressed size
-- of a recording, and what streams receive. Hypotheses on them stand in the theorems that need them.
-- Fuel: format_uint has 20 steps, the digits of a 64-bit number; incompleteTail's loop has its three
-- rounds; ulp has 11, since 2 ^ 53 times 2 ^ 11 is the range of a 64-bit number. The loop of Run is a
-- list of rounds. Every other loop is structural.
--
-- Not modelled: the copying between sockets, ptys and processes, ptys and their ioctls, the agent's
-- socket, the sftp package, host keys, keepalives and heartbeats, the disk check, the token prompt
-- and the flags. An event of a recording is modelled before its JSON encoding, which is an argument
-- of Recorder/Decoded, and without its interval, which is float64 arithmetic. trim_space and the
-- fields of id -G know the white space of ASCII only. A machine answers both starts of a session
-- alike.
pub mod Base
pub mod State
pub mod Certificate
pub mod Addr
pub mod Sshd
pub mod Recording
pub mod Client
pub mod Daemon
pub mod Hostcerts
pub mod Interfaces
pub mod Users
