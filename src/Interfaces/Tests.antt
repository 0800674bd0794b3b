-- ===== src/Interfaces/Tests.antt =====
-- A host with a bridge, a tunnel, an interface that is down and four addresses.
use nokkud.Base.{
  take, All, Bytes, codes, has_prefix, ℕ, refl, Bool, true, false, some, List, [], map, ◌+◌, ◌*◌,
  ◌%◌, ◌^◌, ◌≡◌, ◌∷◌,
}
use nokkud.Interfaces.First.{IsEndpoint, all_endpoints, private_ips-take}
use nokkud.Addr.{Addr, v4, v6, is_loopback, unmap}
use nokkud.Interfaces.{
  Interface, InterfaceAddr, ip_net, other_addr, addr_loop, addrs_of, any_prefix, endpoint_of,
  has_any_prefix, has_infix, interface_loop, is_4, is_invalid, is_link_local_unicast, is_multicast,
  is_noise_interface, is_public_or_private_nic, is_unspecified, private_ips,
}

abbrev nic : Bytes → Bool → Bool → List InterfaceAddr → Interface
nic name up tunnel addrs = record {
  name = name;
  is_up = up;
  is_loop = false;
  is_point_to_point = tunnel;
  addrs = some addrs;
}

-- 10.0.0.`n`.
abbrev ten : ℕ → InterfaceAddr
ten n = ip_net (some (v4 (10 * 2 ^ 24 + n)))

abbrev interfaces : List Interface
interfaces =
    nic (codes "docker0") true false (ten 1 ∷ [])
    ∷ nic (codes "eth0") false false (ten 2 ∷ [])
    ∷ nic (codes "eth1") true false (ip_net (some (v6 1)) ∷ other_addr ∷ ten 3 ∷ [])
    ∷ nic (codes "p2p0") true true (ten 4 ∷ [])
    ∷ nic (codes "wg0") true true (ip_net (some (v6 (0xffff * 2 ^ 32 + 5))) ∷ ten 6 ∷ [])
    ∷ []

-- A printer of the last byte.
abbrev print : Addr → Bytes
print (v4 n) = b'.' ∷ n % 256 ∷ []
print _ = []

reported : private_ips (λ s. s) print (some interfaces) ≡ (b'.' ∷ 3 ∷ []) ∷ (b'.' ∷ 5 ∷ []) ∷ []
unfolding private_ips interface_loop addrs_of addr_loop endpoint_of has_any_prefix has_infix
    is_noise_interface has_prefix codes unmap is_4 is_public_or_private_nic is_invalid is_loopback
    is_link_local_unicast is_multicast is_unspecified any_prefix
reported = refl

private_ips-take_example :
    (private_ips (λ s. s) print (some interfaces)
      ≡ map print (take 2 (all_endpoints (λ s. s) interfaces)))
    × All IsEndpoint (all_endpoints (λ s. s) interfaces)
private_ips-take_example = private_ips-take (λ s. s) print interfaces
