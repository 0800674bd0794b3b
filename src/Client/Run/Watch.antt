-- ===== src/Client/Run/Watch.antt =====
-- The certificate watcher wakes in time.
use nokkud.Base.{
  ltb, Bool-cases, Bytes, ℕ, max, inl, inr, Bool, false, Option, none, some, arith, ◌+◌, ◌≤◌, ◌<◌,
  ◌≡◌, ◌↔◌, ◌⊎◌, ◌==◌, nat_eq, bytes_eq,
}
use nokkud.Client.Sync.{Client}
use nokkud.Hostcerts.Clock.{max_int64}
use nokkud.Hostcerts.Next.{next_renewal_exact}
use nokkud.State.Cache.{cas}
use nokkud.Client.Run.{min_renew_delay, watch_delay}
use nokkud.Certificate.{Certificate, PublicKey}
use nokkud.Hostcerts.{HostFiles, cert_time_infinity, load, needs_renewal, next_renewal}

-- After a round without an error, with a certificate that needs no renewal and is not valid for
-- ever, the watcher sleeps until the certificate needs one, and no longer than that or half a
-- minute: at every later time either there is nothing to renew, or the delay is over or the half
-- minute is not. The conditions: the host key and the CA key can be read, and the renewal is not more
-- than a `time.Duration` away.
pub watch_in_time :
    (parse : Bytes → Option PublicKey) (backoff now later : ℕ) (client : Client) (host_pub : Bytes)
    (ca : PublicKey) (cert : Certificate) (files : HostFiles) (written : Bool)
    → let target = client.config.target_id in
      let ca_key = (cas client.cache).0 in
      now ≤ later
      → parse ca_key ≡ some ca
      → files.host_key_pub ≡ some host_pub
      → load parse files ≡ some cert
      → (cert.valid_before == cert_time_infinity) ≡ false
      → needs_renewal parse now target ca files ≡ none
      → next_renewal parse now target ca_key files ≤ now + max_int64
      → (needs_renewal parse later target ca files ≡ none)
        ⊎ (now + watch_delay parse backoff now client (files, inl written)
            ≤ max later (now + min_renew_delay))
unfolding watch_delay
watch_in_time parse backoff now later client host_pub ca cert files written h p k l f n far =
    elim (Bool-cases (ltb later next)) [
      | inl e ↦ inl (exact.1 (ground arith))
      | inr e ↦ inr (ground (arith, h, far))
    ]
  where
    next : ℕ
    next = next_renewal parse now client.config.target_id (cas client.cache).0 files

    exact :
        (needs_renewal parse later client.config.target_id ca files ≡ none)
        ↔ (later < next_renewal parse now client.config.target_id (cas client.cache).0 files)
    exact =
        next_renewal_exact parse now later client.config.target_id (cas client.cache).0 host_pub ca
          cert files h p k l f n
