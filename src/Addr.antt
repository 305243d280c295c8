-- ===== src/Addr.antt =====
-- `std::net::IpAddr` and `VipAddr` of src/config.rs. An address is the number that its octets write,
-- most significant first, and the derived order puts every IPv4 address below every IPv6 one.
use Prim.Native.Nat.Ordering.{lt, eq, gt}
use keep_afloat_d.Prelude.{ℕ, compare, Ordering, ◌≡◌, Ord, flip, arith}

pub data IpAddr : Type 0 where
  v4 : ℕ → IpAddr
  v6 : ℕ → IpAddr

abbrev pub ip_cmp : IpAddr → IpAddr → Ordering
ip_cmp (v4 a) (v4 b) = compare a b
ip_cmp (v4 a) (v6 b) = lt
ip_cmp (v6 a) (v4 b) = gt
ip_cmp (v6 a) (v6 b) = compare a b

pub ip_refl : (a : IpAddr) → ip_cmp a a ≡ eq
ip_refl a = ground arith

pub ip_eq : (a b : IpAddr) → ip_cmp a b ≡ eq → a ≡ b
ip_eq a b h = ground arith

pub ip_flip : (a b : IpAddr) → ip_cmp b a ≡ flip (ip_cmp a b)
ip_flip a b = ground arith

pub ip_trans : (a b c : IpAddr) → ip_cmp a b ≡ lt → ip_cmp b c ≡ lt → ip_cmp a c ≡ lt
ip_trans a b c p q = ground arith

instance unfoldable pub ip_ord : Ord IpAddr
ip_ord = record {
  cmp = ip_cmp;
  cmp_refl = ip_refl;
  eq_of_cmp = ip_eq;
  cmp_flip = ip_flip;
  cmp_trans = ip_trans;
}

pub record VipAddr : Type 0 where
  pub addr : IpAddr
  pub prefix : ℕ
