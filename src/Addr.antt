-- ===== src/Addr.antt =====
-- The addresses of net/netip that the daemon computes with. An IPv6 zone is left out.
use nokkud.Base.{
  nat_beq, Eq, ℕ, Bool, true, false, arith, ◌*◌, ◌/◌, ◌%◌, ◌^◌, ◌≡◌, ◌↔◌, ◌==◌, if◌then◌else◌,
  nat_eq, bytes_eq,
}

-- `netip.Addr`; `invalid` is the zero value, the others are a 32-bit and a 128-bit number.
pub data Addr : Type 0 where
  invalid : Addr
  v4 v6 : ℕ → Addr

unfoldable pub addr_beq : Addr → Addr → Bool
addr_beq invalid invalid = true
addr_beq (v4 a) (v4 b) = nat_beq a b
addr_beq (v6 a) (v6 b) = nat_beq a b
addr_beq _ _ = false

pub addr_beq_iff : (a b : Addr) → (addr_beq a b ≡ true) ↔ (a ≡ b)
unfolding addr_beq
addr_beq_iff invalid b = ground arith
addr_beq_iff (v4 x) b = ground arith
addr_beq_iff (v6 x) b = ground arith

instance abbrev pub addr_eq : Eq Addr
addr_eq = record { beq = addr_beq; beq_iff = addr_beq_iff }

-- `Unmap`: an IPv4 address in ::ffff:0:0/96 becomes itself.
unfoldable pub unmap : Addr → Addr
unmap (v6 n) = if n / 2 ^ 32 == 0xffff then v4 (n % 2 ^ 32) else v6 n
unmap a = a

-- `IsLoopback`: 127.0.0.0/8 and ::1.
unfoldable pub is_loopback : Addr → Bool
is_loopback invalid = false
is_loopback (v4 n) = n / 2 ^ 24 == 127
is_loopback (v6 n) = n == 1

-- `netip.PrefixFrom(a, 64).Masked().Addr()` on an IPv6 address.
unfoldable pub mask_64 : Addr → Addr
mask_64 (v6 n) = v6 (n / 2 ^ 64 * 2 ^ 64)
mask_64 a = a
