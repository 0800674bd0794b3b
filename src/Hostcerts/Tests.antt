-- ===== src/Hostcerts/Tests.antt =====
-- A host certificate of ten days, its CA and its host key.
use nokkud.Certificate.{certificate, plain}
use nokkud.Base.{
  leb, Bytes, codes, ℕ, refl, true, Option, none, some, [], arith, ◌-◌, ◌*◌, ◌^◌, ◌≤◌, ◌<◌, ◌≡◌,
  ◌↔◌, ◌∷◌, ◌==◌, if◌then◌else◌, nat_eq, bytes_eq,
}
use nokkud.Certificate.{Certificate, PublicKey, host_cert}
use nokkud.Hostcerts.Window.{time, valid_iff}
use nokkud.Hostcerts.{HostFiles, is_for, is_valid}
use nokkud.Hostcerts.Clock.{second, uint64_to_unix_time, unix}

abbrev ten_days : Certificate
ten_days = record {
  wire = codes "W";
  key = codes "K";
  cert_type = host_cert;
  key_id = codes "host";
  valid_principals = codes "target" ∷ [];
  valid_after = 1000000;
  valid_before = 1864000;
  critical_options = [];
  extensions = [];
  signature_key = codes "C";
}

abbrev parse_test : Bytes → Option PublicKey
parse_test data' =
    if data' == codes "cert"
    then some (certificate ten_days)
    else if data' == codes "ca"
    then some (plain (codes "C"))
    else if data' == codes "key"
    then some (plain (codes "K"))
    else none

abbrev at_start : ℕ
at_start = time 1000000

abbrev new_host : HostFiles
new_host = record { host_key_pub = some (codes "key"); host_key_cert = none }

-- A second that has no place in 64 bits from the year 1 on is long past.
wrapped : leb (uint64_to_unix_time (2 ^ 64 - 2)) (uint64_to_unix_time 0) ≡ true
unfolding uint64_to_unix_time unix
wrapped = refl

valid_iff_example : (is_valid at_start ten_days (codes "target") ≡ true) ↔ (
    (is_for (codes "target") ten_days.valid_principals ≡ true)
    × ((time 1000000 ≤ at_start) × (2 * (at_start - time 1000000) < (1864000 - 1000000) * second)))
valid_iff_example =
    valid_iff at_start ten_days (codes "target") (omega arith, omega arith) (omega arith)
