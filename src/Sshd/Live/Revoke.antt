-- ===== src/Sshd/Live/Revoke.antt =====
-- Syncs, logins and `DropRevoked` as interleaved steps: internal/client/sync.go changes the cache
-- and the trust and then drops, `handleConn` of internal/sshd/server.go registers a connection and
-- then drops. A run of `DropRevoked` holds `liveMu` and looks at one connection at a time.
use mathlib.Core.Path.{subst}
use nokkud.Base.{
  all, contains, Bytes, codes, Dict, lookup, is_some, get_or, ℤ, ℕ, refl, Bool, true, false, not,
  Option, List, [], arith, ◌≡◌, ◌&&◌, ◌||◌, ◌∷◌, ◌++◌, nat_eq, bytes_eq,
}
use nokkud.Sshd.Trust.{Trust, set_trust, trusted_ca_wire}
use nokkud.State.Cache.{CacheJson, DaemonConfig, RetiredCaKey, cert_principals, replace}
use nokkud.Sshd.Live.{ServerConn, examine, still_permitted}

-- A registered connection; `unchecked` while its handler's own `DropRevoked` has not begun.
pub record Entry : Type 0 where
  pub conn : ServerConn
  pub unchecked : Bool

-- `s.live` between runs, or split by a run into what it has examined and what is left.
pub data Live : Type 0 where
  idle : List Entry → Live
  running : List Entry → List Entry → Live

-- `owed`: the cache or the trust has changed and no run of `DropRevoked` has begun since.
pub record World : Type 0 where
  pub cache : CacheJson
  pub trust : Trust
  pub live : Live
  pub owed : Bool

abbrev examine_entry : ℕ → World → Entry → Entry
examine_entry now w e = record e { conn = examine (cert_principals w.cache) now w.trust e.conn }

pub data Step (parse : Bytes → Option Bytes) (w u : World) : Type 0 where
  replaces :
      (m : Dict Bytes (List Bytes)) (dc : Option DaemonConfig) (ca : Bytes)
      (retired : List RetiredCaKey) (version : ℤ)
      → u ≡ record w { cache = replace m dc ca retired version w.cache; owed = true }
      → Step parse w u
  trusts :
      (active : Bytes) (retired : List RetiredCaKey)
      → u ≡ record w { trust = set_trust parse active retired w.trust; owed = true }
      → Step parse w u
  sync_drops :
      (l : List Entry)
      → w.live ≡ idle l
      → u ≡ record w { live = running [] l; owed = false }
      → Step parse w u
  examines :
      (now : ℕ) (done : List Entry) (e : Entry) (left : List Entry)
      → w.live ≡ running done (e ∷ left)
      → u ≡ record w { live = running (examine_entry now w e ∷ done) left }
      → Step parse w u
  drop_ends :
      (done : List Entry)
      → w.live ≡ running done []
      → u ≡ record w { live = idle done }
      → Step parse w u
  registers :
      (conn : ServerConn) (l : List Entry)
      → w.live ≡ idle l
      → u ≡ record w { live = idle (record { conn = conn; unchecked = true } ∷ l) }
      → Step parse w u
  conn_drops :
      (xs ys : List Entry) (conn : ServerConn)
      → w.live ≡ idle (xs ++ (record { conn = conn; unchecked = true } ∷ ys))
      → u ≡ record w { live = running [] (xs ++ (record { conn = conn; unchecked = false } ∷ ys)) }
      → Step parse w u
  leaves :
      (xs ys : List Entry) (e : Entry)
      → w.live ≡ idle (xs ++ (e ∷ ys))
      → u ≡ record w { live = idle (xs ++ ys) }
      → Step parse w u

pub data Reach (parse : Bytes → Option Bytes) (cache : CacheJson) (trust : Trust)
    : World → Type 0 where
  start :
      Reach parse cache trust
        (record { cache = cache; trust = trust; live = idle []; owed = false })
  next : {w u : World} → Reach parse cache trust w → Step parse w u → Reach parse cache trust u

-- The cache gives the connection's principal to its user, and its CA is the active one or among
-- the retired ones.
abbrev pub allowed : CacheJson → Trust → ServerConn → Bool
allowed cache trust conn =
    let ext = conn.permissions.extensions in
    let ca = get_or (lookup (codes "nokku-ca") ext) [] in
    contains (cert_principals cache conn.user) (get_or (lookup (codes "nokku-principal") ext) [])
    && (is_some (lookup ca trust.trusted_cas) || is_some (lookup ca trust.retired_cas))

-- A connection is closed, allowed, or somebody has yet to look at it.
abbrev covered : CacheJson → Trust → Bool → Entry → Bool
covered cache trust owed e = e.conn.closed || (allowed cache trust e.conn || (owed || e.unchecked))

abbrev Sound : CacheJson → Trust → Bool → Live → Type 0
Sound cache trust owed (idle l) = all (covered cache trust owed) l ≡ true
Sound cache trust owed (running done left) = all (covered cache trust owed) done ≡ true

abbrev Inv : World → Type 0
Inv w = Sound w.cache w.trust w.owed w.live

examine_allowed :
    (cache : CacheJson) (trust : Trust) (now : ℕ) (conn : ServerConn)
    → let c = examine (cert_principals cache) now trust conn in
      (c.closed || allowed cache trust c) ≡ true
unfolding examine still_permitted trusted_ca_wire
examine_allowed cache trust now conn = ground arith

all_owed :
    (cache : CacheJson) (trust : Trust) (l : List Entry) → all (covered cache trust true) l ≡ true
all_owed cache trust [] = refl
all_owed cache trust (e ∷ l) = ground (arith, all_owed cache trust l)

all-append : (p : Entry → Bool) (xs ys : List Entry) → all p (xs ++ ys) ≡ (all p xs && all p ys)
all-append p [] ys = refl
all-append p (x ∷ xs) ys = ground (arith, all-append p xs ys)

Sound-owed : (cache : CacheJson) (trust : Trust) (l : Live) → Sound cache trust true l
Sound-owed cache trust (idle l) = all_owed cache trust l
Sound-owed cache trust (running done left) = all_owed cache trust done

Step-Inv : {parse : Bytes → Option Bytes} {w u : World} → Step parse w u → Inv w → Inv u
Step-Inv {w} (replaces m dc ca retired version e) h = rw e (Sound-owed _ w.trust w.live)
Step-Inv {w} (trusts active retired e) h = rw e (Sound-owed w.cache _ w.live)
Step-Inv {w} (sync_drops l i e) h = rw e refl
Step-Inv {w} (examines now done x left i e) h =
    let h' = subst (Sound w.cache w.trust w.owed) i h in
    rw e (ground (arith, examine_allowed w.cache w.trust now x.conn))
Step-Inv {w} (drop_ends done i e) h = rw e (subst (Sound w.cache w.trust w.owed) i h)
Step-Inv {w} (registers conn l i e) h =
    let h' = subst (Sound w.cache w.trust w.owed) i h in rw e (ground arith)
Step-Inv {w} (conn_drops xs ys conn i e) h = rw e refl
Step-Inv {w} (leaves xs ys x i e) h =
    let h' = subst (Sound w.cache w.trust w.owed) i h in
    let p = covered w.cache w.trust w.owed in
    rw e (ground (arith, all-append p xs ys, all-append p xs (x ∷ ys)))

Reach-Inv :
    {parse : Bytes → Option Bytes} {cache : CacheJson} {trust : Trust} {w : World}
    → Reach parse cache trust w
    → Inv w
Reach-Inv start = refl
Reach-Inv (next r st) = Step-Inv st (Reach-Inv r)

abbrev pub open_allowed : CacheJson → Trust → Entry → Bool
open_allowed cache trust e = e.conn.closed || allowed cache trust e.conn

settled_allowed :
    (cache : CacheJson) (trust : Trust) (l : List Entry)
    → all (covered cache trust false) l ≡ true
    → all (λ e. not e.unchecked) l ≡ true
    → all (open_allowed cache trust) l ≡ true
settled_allowed cache trust [] h n = refl
settled_allowed cache trust (e ∷ l) h n = ground (arith, settled_allowed cache trust l)

-- However syncs, logins and runs of `DropRevoked` interleave, also where a sync falls into a
-- handshake: once no run is under way or owed, by a sync or by the handler of a new connection,
-- every registered connection that is not closed has its principal in the cache's list for its
-- user and was signed by a CA of the current trust.
pub revoked_connections_close :
    {parse : Bytes → Option Bytes} {cache : CacheJson} {trust : Trust} {w : World} (l : List Entry)
    → Reach parse cache trust w
    → w.live ≡ idle l
    → w.owed ≡ false
    → all (λ e. not e.unchecked) l ≡ true
    → all (open_allowed w.cache w.trust) l ≡ true
revoked_connections_close {w} l r i o n =
    settled_allowed w.cache w.trust l
      (subst (λ b. Sound w.cache w.trust b (idle l)) o
        (subst (Sound w.cache w.trust w.owed) i (Reach-Inv r)))
      n
