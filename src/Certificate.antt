-- ===== src/Certificate.antt =====
-- The keys and certificates of golang.org/x/crypto/ssh, as far as the daemon reads them.
use nokkud.Base.{Bytes, Dict, ℕ, List}

-- `ssh.UserCert` and `ssh.HostCert`.
abbrev pub user_cert : ℕ
user_cert = 1

abbrev pub host_cert : ℕ
host_cert = 2

-- `ssh.Certificate`. Keys stand in their wire form (`Marshal`); a certificate that the package has
-- parsed always has a signature key.
pub record Certificate : Type 0 where
  pub wire : Bytes
  pub key : Bytes
  pub cert_type : ℕ
  pub key_id : Bytes
  pub valid_principals : List Bytes
  pub valid_after : ℕ
  pub valid_before : ℕ
  pub critical_options : Dict Bytes Bytes
  pub extensions : Dict Bytes Bytes
  pub signature_key : Bytes

-- `ssh.PublicKey`.
pub data PublicKey : Type 0 where
  plain : Bytes → PublicKey
  certificate : Certificate → PublicKey

-- `Marshal`.
abbrev pub wire_of : PublicKey → Bytes
wire_of (plain w) = w
wire_of (certificate c) = c.wire
