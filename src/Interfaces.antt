-- ===== src/Interfaces.antt =====
-- internal/sysutil/meta.go: the addresses that the daemon reports as endpoints. The interfaces of
-- the host, `strings.ToLower` and the printer of addresses are arguments.
pub mod First
mod Tests
use nokkud.Base.{
  leb, length, Bytes, codes, has_prefix, Bool, true, false, not, Option, none, some, List, [], ◌/◌,
  ◌^◌, ◌&&◌, ◌||◌, ◌∷◌, ◌++◌, ◌==◌, if◌then◌else◌, nat_eq, bytes_eq,
}
use nokkud.Addr.{Addr, invalid, v4, v6, unmap, is_loopback, addr_eq}

-- `noisePrefixes`.
abbrev pub noise_prefixes : List Bytes
noise_prefixes =
    codes "docker"
    ∷ codes "veth"
    ∷ codes "br-"
    ∷ codes "virbr"
    ∷ codes "vmnet"
    ∷ codes "vboxnet"
    ∷ codes "vnic"
    ∷ codes "vethernet"
    ∷ codes "lo"
    ∷ codes "dummy"
    ∷ codes "teql"
    ∷ codes "gre"
    ∷ codes "sit"
    ∷ codes "ip6tnl"
    ∷ codes "ip6gre"
    ∷ codes "cali"
    ∷ codes "flannel"
    ∷ codes "cni"
    ∷ codes "kube"
    ∷ codes "weave"
    ∷ codes "cilium"
    ∷ codes "antrea"
    ∷ codes "podman"
    ∷ codes "containerd"
    ∷ []

-- `tunnelPrefixes`.
abbrev pub tunnel_prefixes : List Bytes
tunnel_prefixes = codes "wg" ∷ codes "tun" ∷ codes "tap" ∷ codes "utun" ∷ codes "ppp" ∷ []

-- `net.Addr`: an `*net.IPNet` with what `netip.AddrFromSlice` gives for its bytes, or another type.
pub data InterfaceAddr : Type 0 where
  ip_net : Option Addr → InterfaceAddr
  other_addr : InterfaceAddr

-- `net.Interface` with its flags; `addrs` is `none` where `Addrs` fails.
pub record Interface : Type 0 where
  pub name : Bytes
  pub is_up : Bool
  pub is_loop : Bool
  pub is_point_to_point : Bool
  pub addrs : Option (List InterfaceAddr)

-- `strings.Contains`.
unfoldable pub has_infix : Bytes → Bytes → Bool
unfolding has_prefix
has_infix [] part = has_prefix [] part
has_infix (c ∷ cs) part = has_prefix (c ∷ cs) part || has_infix cs part

unfoldable pub any_prefix : Bytes → List Bytes → Bool
unfolding has_prefix
any_prefix lower [] = false
any_prefix lower (prefix ∷ prefixes) = has_prefix lower prefix || any_prefix lower prefixes

-- `hasAnyPrefix`.
unfoldable pub has_any_prefix : (Bytes → Bytes) → Bytes → List Bytes → Bool
unfolding any_prefix
has_any_prefix to_lower name prefixes = any_prefix (to_lower name) prefixes

-- `isNoiseInterface`.
unfoldable pub is_noise_interface : (Bytes → Bytes) → Bytes → Bool
unfolding has_infix has_any_prefix
is_noise_interface to_lower name =
    has_infix (to_lower name) (codes "hyper-v")
    || has_any_prefix to_lower (to_lower name) noise_prefixes

-- `IsLinkLocalUnicast`: 169.254.0.0/16 and fe80::/10.
unfoldable pub is_link_local_unicast : Addr → Bool
is_link_local_unicast invalid = false
is_link_local_unicast (v4 n) = n / 2 ^ 16 == 0xa9fe
is_link_local_unicast (v6 n) = n / 2 ^ 118 == 0x3fa

-- `IsMulticast`: 224.0.0.0/4 and ff00::/8.
unfoldable pub is_multicast : Addr → Bool
is_multicast invalid = false
is_multicast (v4 n) = n / 2 ^ 28 == 14
is_multicast (v6 n) = n / 2 ^ 120 == 255

-- `IsUnspecified`: the addresses of zeros.
unfoldable pub is_unspecified : Addr → Bool
is_unspecified invalid = false
is_unspecified (v4 n) = n == 0
is_unspecified (v6 n) = n == 0

unfoldable pub is_invalid : Addr → Bool
is_invalid invalid = true
is_invalid _ = false

-- `isPublicOrPrivateNIC`.
unfoldable pub is_public_or_private_nic : Addr → Bool
unfolding is_invalid is_loopback is_link_local_unicast is_multicast is_unspecified
is_public_or_private_nic ip = not (
    is_invalid ip
    || (is_loopback ip || (is_link_local_unicast ip || (is_multicast ip || is_unspecified ip))))

unfoldable pub is_4 : Addr → Bool
is_4 (v4 n) = true
is_4 _ = false

-- The tests of the loop over the addresses of an interface, and the address that passes them.
unfoldable pub endpoint_of : InterfaceAddr → Option Addr
unfolding unmap is_4 is_public_or_private_nic
endpoint_of other_addr = none
endpoint_of (ip_net none) = none
endpoint_of (ip_net (some a)) =
    let ip = unmap a in
    if not (is_4 ip) then none else (if not (is_public_or_private_nic ip) then none else some ip)

-- The tests of an interface; `none` is a `continue`.
unfoldable pub addrs_of : (Bytes → Bytes) → Interface → Option (List InterfaceAddr)
unfolding has_any_prefix is_noise_interface
addrs_of to_lower i =
    if not i.is_up || i.is_loop
    then none
    else if i.is_point_to_point && not (has_any_prefix to_lower i.name tunnel_prefixes)
    then none
    else if is_noise_interface to_lower i.name
    then none
    else i.addrs

-- The loop over the addresses; the flag is the early return.
unfoldable pub addr_loop : (Addr → Bytes) → List Bytes → List InterfaceAddr → List Bytes × Bool
unfolding endpoint_of
addr_loop print ips [] = (ips, false)
addr_loop print ips (addr ∷ addrs) = elim (endpoint_of addr) [
  | none ↦ addr_loop print ips addrs
  | some ip ↦
      let more = ips ++ (print ip ∷ []) in
      let rest = addr_loop print more addrs in if leb 2 (length more) then (more, true) else rest
]

-- The loop over the interfaces.
unfoldable pub interface_loop :
    (Bytes → Bytes) → (Addr → Bytes) → List Bytes → List Interface → List Bytes
unfolding addrs_of addr_loop
interface_loop to_lower print ips [] = ips
interface_loop to_lower print ips (i ∷ is) = elim (addrs_of to_lower i) [
  | none ↦ interface_loop to_lower print ips is
  | some addrs ↦
      let (more, full) = addr_loop print ips addrs in
      let rest = interface_loop to_lower print more is in if full then more else rest
]

-- `PrivateIPs`; `none` is a listing of the interfaces that fails.
unfoldable pub private_ips : (Bytes → Bytes) → (Addr → Bytes) → Option (List Interface) → List Bytes
unfolding interface_loop
private_ips to_lower print none = []
private_ips to_lower print (some interfaces) = interface_loop to_lower print [] interfaces
