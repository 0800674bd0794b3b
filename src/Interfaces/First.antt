-- ===== src/Interfaces/First.antt =====
-- The first two addresses that are endpoints.
use mathlib.Core.List.{map-append}
use nokkud.Base.{
  leb, leb→le, Bool-cases, Option-cases, length, take, length-append, length-take, All, All-append,
  Bytes, ℕ, zero, suc, refl, sym, ap, inl, inr, true, false, not, Option, none, some, List, [], map,
  append-nil, append_assoc, arith, ◌/◌, ◌^◌, ◌≤◌, ◌<◌, ◌≡◌, ◌∙◌, ◌≢◌, ◌∷◌, ◌++◌, if◌then◌else◌,
}
use nokkud.Interfaces.{
  Interface, InterfaceAddr, addrs_of, endpoint_of, addr_loop, is_4, is_public_or_private_nic,
  interface_loop, is_invalid, is_link_local_unicast, is_multicast, is_unspecified, private_ips,
}
use nokkud.Interfaces.{ip_net, other_addr}
use nokkud.Addr.{invalid, v6, Addr, v4, unmap, is_loopback}

-- The endpoints among the addresses of an interface.
abbrev pub endpoints : List InterfaceAddr → List Addr
endpoints [] = []
endpoints (addr ∷ addrs) = elim (endpoint_of addr) [
  | none ↦ endpoints addrs
  | some ip ↦ ip ∷ endpoints addrs
]

abbrev pub interface_endpoints : Option (List InterfaceAddr) → List Addr
interface_endpoints none = []
interface_endpoints (some addrs) = endpoints addrs

-- Those of all interfaces, in order.
abbrev pub all_endpoints : (Bytes → Bytes) → List Interface → List Addr
all_endpoints to_lower [] = []
all_endpoints to_lower (i ∷ is) =
    interface_endpoints (addrs_of to_lower i) ++ all_endpoints to_lower is

-- An IPv4 address that is not of zeros, loopback, link-local or multicast.
abbrev pub IsEndpoint : Addr → Type 0
IsEndpoint ip =
    (n : ℕ) × ((ip ≡ v4 n)
      × ((n ≢ 0) × ((n / 2 ^ 24 ≢ 127) × ((n / 2 ^ 16 ≢ 0xa9fe) × (n / 2 ^ 28 ≢ 14)))))

module _ {ℓ} {A : Type ℓ} where
  take-short : (n : ℕ) (l : List A) → length (take n l) < n → take n l ≡ l
  take-short zero l h = absurd (omega arith)
  take-short (suc n) [] h = refl
  take-short (suc n) (a ∷ l) h = λ i. a ∷ take-short n l (omega (arith, h)) i

  take-full : (n : ℕ) (l m : List A) → n ≤ length (take n l) → take n (l ++ m) ≡ take n l
  take-full zero l m h = refl
  take-full (suc n) [] m h = absurd (omega arith)
  take-full (suc n) (a ∷ l) m h = λ i. a ∷ take-full n l m (omega (arith, h)) i

  take_all : (n : ℕ) (l : List A) → length l ≤ n → take n l ≡ l
  take_all zero [] h = refl
  take_all zero (a ∷ l) h = absurd (omega arith)
  take_all (suc n) [] h = refl
  take_all (suc n) (a ∷ l) h = λ i. a ∷ take_all n l (omega (arith, h)) i

take-map {ℓ} :
    {A : Type ℓ} (f : A → Bytes) (n : ℕ) (l : List A) → take n (map f l) ≡ map f (take n l)
take-map f zero l = refl
take-map f (suc n) [] = refl
take-map f (suc n) (a ∷ l) = λ i. f a ∷ take-map f n l i

not_leb→lt : (a b : ℕ) → leb a b ≡ false → b < a
not_leb→lt a b h = ground arith

nic-v4 :
    (n : ℕ)
    → is_public_or_private_nic (v4 n) ≡ true
    → (n ≢ 0) × ((n / 2 ^ 24 ≢ 127) × ((n / 2 ^ 16 ≢ 0xa9fe) × (n / 2 ^ 28 ≢ 14)))
unfolding is_public_or_private_nic is_loopback is_link_local_unicast is_multicast is_unspecified
    is_invalid
nic-v4 n h = (ground arith, (ground arith, (ground arith, ground arith)))

endpoint_of-IsEndpoint :
    (addr : InterfaceAddr) (ip : Addr) → endpoint_of addr ≡ some ip → IsEndpoint ip
unfolding endpoint_of
endpoint_of-IsEndpoint other_addr ip h = absurd (ground arith)
endpoint_of-IsEndpoint (ip_net none) ip h = absurd (ground arith)
endpoint_of-IsEndpoint (ip_net (some a)) ip h = passed (unmap a) h
  where
    passed :
        (a : Addr)
        → (if not (is_4 a)
            then none
            else (if not (is_public_or_private_nic a) then none else some a))
          ≡ some ip
        → IsEndpoint ip
    passed invalid h = absurd (ground arith)
    passed (v6 n) h = absurd (ground arith)
    passed (v4 n) h = elim (Bool-cases (is_public_or_private_nic (v4 n))) [
      | inl t ↦ (n, (ground arith, nic-v4 n t))
      | inr t ↦ absurd (ground arith)
    ]

endpoints-IsEndpoint : (addrs : List InterfaceAddr) → All IsEndpoint (endpoints addrs)
endpoints-IsEndpoint [] = tt
endpoints-IsEndpoint (addr ∷ addrs) = elim (Option-cases (endpoint_of addr)) [
  | inl e ↦ rw (e, All, endpoints) (endpoints-IsEndpoint addrs)
  | inr (ip, e) ↦
      rw (e, All, endpoints) (endpoint_of-IsEndpoint addr ip e, endpoints-IsEndpoint addrs)
]

interface_endpoints-IsEndpoint :
    (o : Option (List InterfaceAddr)) → All IsEndpoint (interface_endpoints o)
interface_endpoints-IsEndpoint none = tt
interface_endpoints-IsEndpoint (some addrs) = endpoints-IsEndpoint addrs

module _ (to_lower : Bytes → Bytes) (print : Addr → Bytes) where
  all_endpoints-IsEndpoint : (is : List Interface) → All IsEndpoint (all_endpoints to_lower is)
  all_endpoints-IsEndpoint [] = tt
  all_endpoints-IsEndpoint (i ∷ is) =
      All-append IsEndpoint (interface_endpoints (addrs_of to_lower i)) (all_endpoints to_lower is)
        (interface_endpoints-IsEndpoint (addrs_of to_lower i)) (all_endpoints-IsEndpoint is)

  abbrev IsPrefix : List Bytes → List InterfaceAddr → Type 0
  IsPrefix ips addrs =
      let (more, full) = addr_loop print ips addrs in
      (more ≡ take 2 (ips ++ map print (endpoints addrs))) × (full ≡ leb 2 (length more))

  addr_loop-IsPrefix :
      (ips : List Bytes) (addrs : List InterfaceAddr) → length ips < 2 → IsPrefix ips addrs
  unfolding addr_loop
  addr_loop-IsPrefix ips [] h =
      let e = append-nil ips in rw (e, take_all 2 ips (omega arith)) (refl, ground arith)
  addr_loop-IsPrefix ips (addr ∷ addrs) h = elim (Option-cases (endpoint_of addr)) [
    | inl e ↦ rw (e, addr_loop, endpoints) (addr_loop-IsPrefix ips addrs h)
    | inr (ip, e) ↦
        let more = ips ++ (print ip ∷ []) in
        let len = length-append ips (print ip ∷ []) in
        let rest = map print (endpoints addrs) in
        elim (Bool-cases (leb 2 (length more))) [
          | inl t ↦
              rw (e, t, addr_loop, endpoints, sym (append_assoc ips (print ip ∷ []) rest))
                (
                  sym (
                      take-full 2 more rest
                        (omega (arith, length-take 2 more, leb→le 2 (length more) t))
                      ∙ take_all 2 more (omega (arith, len, h))),
                  sym t,
                )
          | inr t ↦
              rw (e, t, addr_loop, endpoints, sym (append_assoc ips (print ip ∷ []) rest))
                (addr_loop-IsPrefix more addrs (not_leb→lt 2 (length more) t))
        ]
  ]

  -- From a list of fewer than two, the loop over the interfaces gives the first two.
  interface_loop-take :
      (ips : List Bytes) (is : List Interface)
      → length ips < 2
      → interface_loop to_lower print ips is ≡ take 2 (ips ++ map print (all_endpoints to_lower is))
  unfolding interface_loop
  interface_loop-take ips [] h = rw (append-nil ips) (sym (take_all 2 ips (omega arith)))
  interface_loop-take ips (i ∷ is) h = elim (Option-cases (addrs_of to_lower i)) [
    | inl e ↦ rw (e, interface_loop, all_endpoints) (interface_loop-take ips is h)
    | inr (addrs, e) ↦
        let (pre, full) = addr_loop-IsPrefix ips addrs h in
        let found = map print (endpoints addrs) in
        let r = (addr_loop print ips addrs).0 in
        let rest = map print (all_endpoints to_lower is) in
        let split =
          ap (λ l. ips ++ l) (map-append print (endpoints addrs) (all_endpoints to_lower is))
          ∙ sym (append_assoc ips found rest) in
        elim (Bool-cases (addr_loop print ips addrs).1) [
          | inl t ↦
              rw (e, t, interface_loop, all_endpoints)
                (rw split (
                  pre
                  ∙ sym (
                      take-full 2 (ips ++ found) rest
                        (rw (sym pre) (leb→le 2 (length r) (sym full ∙ t))))))
          | inr t ↦
              let short = not_leb→lt 2 (length r) (sym full ∙ t) in
              let whole = pre ∙ take-short 2 (ips ++ found) (rw (sym pre) short) in
              rw (e, t, interface_loop, all_endpoints)
                (rw (split, whole) (interface_loop-take (ips ++ found) is (rw (sym whole) short)))
        ]
  ]

  -- If the interfaces can be listed, the addresses that are reported are the first two endpoints, in
  -- the order of the interfaces and their addresses, of the interfaces that pass the tests, and each
  -- endpoint is an IPv4 address that is not of zeros, loopback, link-local or multicast.
  pub private_ips-take :
      (is : List Interface)
      → (private_ips to_lower print (some is) ≡ map print (take 2 (all_endpoints to_lower is)))
        × All IsEndpoint (all_endpoints to_lower is)
  unfolding private_ips
  private_ips-take is = (
    interface_loop-take [] is (omega arith) ∙ take-map print 2 (all_endpoints to_lower is),
    all_endpoints-IsEndpoint is,
  )
