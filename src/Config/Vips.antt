-- ===== src/Config/Vips.antt =====
-- `Config::normalize_vips` of src/config/vip_validation.rs and `Config::sorted_vips` of src/config.rs.
pub mod Sorting
pub mod Normal
use Prim.Native.Char.{Char, code}
use Prim.Native.String.{String, len, ◌++◌}
use text.Mathlib.Text.{◌==◌ as str_eq}
use Prim.Native.Nat.Ordering.{gt}
use Prim.Native.Nat.{bit_and}
use keep_afloat_d.Prelude.{
  ℕ, ◌+◌, ◌-◌, ◌*◌, ◌/◌, ◌^◌, ◌≡◌, Bool, true, false, not, ◌&&◌, ◌||◌, Option, none, some, List, [],
  ◌∷◌, map, leb, ltb, ◌==◌, same, if◌then◌else◌, is_eq, Ord, Result, ok, err, and_then,
}
use keep_afloat_d.BTreeMap
use keep_afloat_d.BTreeMap.{BTreeMap}
use keep_afloat_d.Addr.{IpAddr, v4, v6, VipAddr, ip_ord}

pub record VipConfig : Type 0 where
  pub address : VipAddr
  pub interface : String
  pub vlan : Option ℕ

-- What the standard library knows of characters, and how it prints a number.
pub record Text : Type 0 where
  pub is_whitespace : Char → Bool
  pub is_control : Char → Bool
  pub decimal : ℕ → String

-- The position of a VIP in the list, and what is wrong with it.
abbrev pub VipError : Type 0
VipError = ℕ × String

-- `anyhow::ensure!`
abbrev pub ensure {ℓ} : {A : Type ℓ} → Bool → ℕ → String → Result A VipError → Result A VipError
ensure t i what rest = if not t then err (i, what) else rest

-- `Ipv6Addr::to_ipv4_mapped`
abbrev pub to_ipv4_mapped : ℕ → Option ℕ
to_ipv4_mapped a = if a / 2 ^ 32 == 0xffff then some (a - 0xffff * 2 ^ 32) else none

-- The tests of `std::net` on an address.
abbrev pub is_unspecified : IpAddr → Bool
is_unspecified (v4 a) = a == 0
is_unspecified (v6 a) = a == 0

abbrev pub is_multicast : IpAddr → Bool
is_multicast (v4 a) = a / 2 ^ 28 == 14
is_multicast (v6 a) = a / 2 ^ 120 == 0xff

abbrev pub is_loopback : IpAddr → Bool
is_loopback (v4 a) = a / 2 ^ 24 == 127
is_loopback (v6 a) = a == 1

abbrev pub is_broadcast : ℕ → Bool
is_broadcast a = a == 0xffffffff

-- `(a..=b).contains(&n)`
abbrev pub within : ℕ → ℕ → ℕ → Bool
within a b n = leb a n && leb n b

unfoldable pub any_char : (Char → Bool) → String → Bool
any_char p String.[] = false
any_char p (String.◌∷◌ c s) = let rest = any_char p s in if p c then true else rest

abbrev pub Binding : Type 0
Binding = ℕ × String

module _ (text : Text) where
  -- `VipConfig::effective_interface`
  abbrev pub effective_of : String → Option ℕ → String
  effective_of interface none = interface
  effective_of interface (some vlan) = interface ++ "." ++ text.decimal vlan

  abbrev pub effective_interface : VipConfig → String
  effective_interface vip = effective_of vip.interface vip.vlan

  -- The characters that an interface's name may not have.
  abbrev pub is_refused : Char → Bool
  is_refused c = text.is_whitespace c || text.is_control c || code c == b'/' || code c == b':'

  -- `validate_interface`
  unfoldable pub is_interface : String → Bool
  unfolding any_char
  is_interface name =
      not (str_eq name "")
      && leb (len name) 15
      && not (str_eq name "." || str_eq name "..")
      && not (any_char is_refused name)

  abbrev pub validate_interface {ℓ} :
      {A : Type ℓ} → String → ℕ → Result A VipError → Result A VipError
  validate_interface name i rest =
      ensure (is_interface name) i
        "interface must be a Linux name of 1 to 15 bytes without whitespace, controls, '/', ':' or dot-only names"
        rest

  -- The block on a mapped address: the address as the rest of the loop sees it.
  abbrev pub unmap_v6 : VipConfig → ℕ → ℕ → Option ℕ → Result VipConfig VipError
  unmap_v6 vip i a none = ok vip
  unmap_v6 vip i a (some ipv4) =
      ensure (within 97 128 vip.address.prefix) i "mapped IPv4 prefix must be /97 to /128"
        (ok (record vip { address = record { addr = v4 ipv4; prefix = vip.address.prefix - 96 } }))

  abbrev pub unmap : VipConfig → ℕ → IpAddr → Result VipConfig VipError
  unmap vip i (v4 a) = ok vip
  unmap vip i (v6 a) = unmap_v6 vip i a (to_ipv4_mapped a)

  -- Whether an IPv4 address is neither the network's nor the broadcast address of its prefix.
  abbrev pub is_host : ℕ → ℕ → Bool
  is_host a prefix =
      let host_mask = 0xffffffff / 2 ^ prefix in
      let host = bit_and a host_mask in not (host == 0) && not (host == host_mask)

  abbrev pub check_family : IpAddr → ℕ → ℕ → Result (Unit {0}) VipError
  check_family (v6 a) prefix i =
      ensure (within 1 128 prefix) i "VIP prefix must be between 1 and 128" (ok tt)
  check_family (v4 a) prefix i =
      ensure (within 1 32 prefix) i "VIP prefix must be between 1 and 32" (
        ensure (not (is_broadcast a)) i "broadcast is not a VIP host address" (
          if ltb prefix 31
          then ensure (is_host a prefix) i "VIP must not be the subnet network or broadcast address"
              (ok tt)
          else ok tt))

  abbrev pub has_dot : String → Bool
  has_dot = any_char (λ c. code c == b'.')

  abbrev pub check_vlan : String → Option ℕ → ℕ → Result (Unit {0}) VipError
  check_vlan interface none i = ok tt
  check_vlan interface (some vlan) i =
      ensure (within 1 4094 vlan) i "vlan is out of range: IEEE 802.1Q allows 1-4094" (
        ensure (not (has_dot interface)) i "interface must not contain a dot when vlan is set"
          (ok tt))

  -- The body of the loop up to the binding: the VIP as it is stored.
  unfoldable pub check_vip : VipConfig → ℕ → Result VipConfig VipError
  unfolding is_interface any_char
  check_vip given i = and_then (unmap given i given.address.addr) (λ vip.
      let address = vip.address.addr in
      ensure
        (not (is_unspecified address) && not (is_multicast address) && not (is_loopback address)) i
        "VIP must be a non-loopback unicast host address"
        (and_then (check_family address vip.address.prefix i) (λ _.
          validate_interface vip.interface i (
            and_then (check_vlan vip.interface vip.vlan i)
              (λ _. validate_interface (effective_interface vip) i (ok vip))))))

  abbrev pub binding_of : VipConfig → Binding
  binding_of vip = (vip.address.prefix, effective_interface vip)

  -- Whether an earlier VIP of the same address agrees.
  abbrev pub agrees : Option Binding → Binding → Bool
  agrees none b = true
  agrees (some previous) b = previous.0 == b.0 && str_eq previous.1 b.1

  -- The loop of `normalize_vips`: the VIPs as they are stored.
  unfoldable pub check_vips :
      List VipConfig → ℕ → BTreeMap IpAddr Binding → Result (List VipConfig) VipError
  unfolding check_vip
  check_vips [] i bindings = ok []
  check_vips (given ∷ vips) i bindings = and_then (check_vip given i) (λ vip.
      let binding = binding_of vip in
      ensure (agrees (BTreeMap.get bindings vip.address.addr) binding) i
        "conflicting VIP: prefix and effective interface must agree"
        (and_then (check_vips vips (i + 1) (BTreeMap.insert bindings vip.address.addr binding))
          (λ rest. ok (vip ∷ rest))))

-- `sort_by_key(|vip| vip.address.addr)`, which is stable.
unfoldable pub insert_by_address : VipConfig → List VipConfig → List VipConfig
unfolding ip_ord
insert_by_address vip [] = vip ∷ []
insert_by_address vip (x ∷ xs) = elim (ip_ord.cmp vip.address.addr x.address.addr) [
  | gt ↦ x ∷ insert_by_address vip xs
  | _ ↦ vip ∷ x ∷ xs
]

unfoldable pub sort_by_address : List VipConfig → List VipConfig
unfolding insert_by_address
sort_by_address [] = []
sort_by_address (vip ∷ vips) = insert_by_address vip (sort_by_address vips)

-- `dedup_by_key(|vip| vip.address.addr)`: what it keeps after a VIP of this address.
unfoldable pub dedup_after : IpAddr → List VipConfig → List VipConfig
dedup_after addr [] = []
dedup_after addr (vip ∷ vips) =
    let drop = dedup_after addr vips in
    let keep = dedup_after vip.address.addr vips in
    if same addr vip.address.addr then drop else vip ∷ keep

unfoldable pub dedup_by_address : List VipConfig → List VipConfig
unfolding dedup_after
dedup_by_address [] = []
dedup_by_address (vip ∷ vips) = vip ∷ dedup_after vip.address.addr vips

-- `Config::normalize_vips`: the VIPs after it.
unfoldable pub normalize_vips : Text → List VipConfig → Result (List VipConfig) VipError
unfolding check_vips sort_by_address dedup_by_address
normalize_vips text vips =
    and_then (check_vips text vips 0 [])
      (λ checked. ok (dedup_by_address (sort_by_address checked)))

abbrev pub addresses : List VipConfig → List IpAddr
addresses = map (λ (vip : VipConfig). vip.address.addr)

-- `Config::sorted_vips`
abbrev pub sorted_vips : Text → List VipConfig → List (VipAddr × String)
sorted_vips text vips = map (λ (vip : VipConfig). (vip.address, effective_interface text vip)) vips
