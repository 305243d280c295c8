-- ===== src/Config/Vips/Sorting.antt =====
-- The sorting and the removal of repeated addresses at the end of `Config::normalize_vips`
-- (src/config/vip_validation.rs).
use Prim.Native.Nat.Ordering.{lt, eq, gt}
use keep_afloat_d.Prelude.{
  Ordering, ◌≡◌, ◌∙◌, refl, Bool, true, false, List, [], ◌∷◌, All, same, if◌then◌else◌, arith,
}
use keep_afloat_d.BTreeSet
use keep_afloat_d.BTreeSet.Distinct.{IsDistinct}
use keep_afloat_d.Addr.{IpAddr, ip_ord}
use keep_afloat_d.Config.Vips.{
  VipConfig, insert_by_address, sort_by_address, dedup_after, dedup_by_address, addresses,
}

abbrev is_le : Ordering → Bool
is_le lt = true
is_le eq = true
is_le gt = false

-- The addresses do not descend, from this one on.
abbrev Climbs : IpAddr → List VipConfig → Type 0
Climbs a [] = Unit
Climbs a (v ∷ vs) = (is_le (ip_ord.cmp a v.address.addr) ≡ true) × Climbs v.address.addr vs

abbrev IsSorted : List VipConfig → Type 0
IsSorted [] = Unit
IsSorted (v ∷ vs) = Climbs v.address.addr vs

-- The addresses ascend, from this one on.
abbrev pub Ascends : IpAddr → List VipConfig → Type 0
Ascends a [] = Unit
Ascends a (v ∷ vs) = (ip_ord.cmp a v.address.addr ≡ lt) × Ascends v.address.addr vs

abbrev pub IsAscending : List VipConfig → Type 0
IsAscending [] = Unit
IsAscending (v ∷ vs) = Ascends v.address.addr vs

insert-Climbs :
    (a : IpAddr) (v : VipConfig) (vs : List VipConfig)
    → is_le (ip_ord.cmp a v.address.addr) ≡ true
    → Climbs a vs
    → Climbs a (insert_by_address v vs)
unfolding insert_by_address
insert-Climbs a v [] le c = (le, tt)
insert-Climbs a v (x ∷ xs) le c =
    ground (arith, insert-Climbs x.address.addr v xs, ip_ord.cmp_flip v.address.addr x.address.addr)

insert-IsSorted :
    (v : VipConfig) (vs : List VipConfig) → IsSorted vs → IsSorted (insert_by_address v vs)
unfolding insert_by_address
insert-IsSorted v [] c = tt
insert-IsSorted v (x ∷ xs) c =
    ground (arith, insert-Climbs x.address.addr v xs, ip_ord.cmp_flip v.address.addr x.address.addr)

sort-IsSorted : (vs : List VipConfig) → IsSorted (sort_by_address vs)
unfolding sort_by_address
sort-IsSorted [] = tt
sort-IsSorted (v ∷ vs) = insert-IsSorted v (sort_by_address vs) (sort-IsSorted vs)

dedup_after-Ascends :
    (a : IpAddr) (vs : List VipConfig) → Climbs a vs → Ascends a (dedup_after a vs)
unfolding dedup_after
dedup_after-Ascends a [] c = tt
dedup_after-Ascends a (v ∷ vs) c = ground (
  arith,
  dedup_after-Ascends a vs,
  dedup_after-Ascends v.address.addr vs c.1,
  ip_ord.eq_of_cmp a v.address.addr,
)

dedup-IsAscending : (vs : List VipConfig) → IsSorted vs → IsAscending (dedup_by_address vs)
unfolding dedup_by_address
dedup-IsAscending [] c = tt
dedup-IsAscending (v ∷ vs) c = dedup_after-Ascends v.address.addr vs c

pub sorted-IsAscending : (vs : List VipConfig) → IsAscending (dedup_by_address (sort_by_address vs))
sorted-IsAscending vs = dedup-IsAscending (sort_by_address vs) (sort-IsSorted vs)

Ascends-trans :
    (a b : IpAddr) (vs : List VipConfig) → ip_ord.cmp a b ≡ lt → Ascends b vs → Ascends a vs
Ascends-trans a b [] h s = tt
Ascends-trans a b (v ∷ vs) h s = (ip_ord.cmp_trans a b v.address.addr h s.0, s.1)

Ascends-contains :
    (a : IpAddr) (vs : List VipConfig) → Ascends a vs → BTreeSet.contains (addresses vs) a ≡ false
unfolding BTreeSet.contains
Ascends-contains a [] s = refl
Ascends-contains a (v ∷ vs) s =
    ground (arith, Ascends-contains a vs (Ascends-trans a v.address.addr vs s.0 s.1))

Ascends-IsDistinct : (a : IpAddr) (vs : List VipConfig) → Ascends a vs → IsDistinct (addresses vs)
Ascends-IsDistinct a [] s = tt
Ascends-IsDistinct a (v ∷ vs) s =
    (Ascends-contains v.address.addr vs s.1, Ascends-IsDistinct v.address.addr vs s.1)

pub IsAscending-IsDistinct : (vs : List VipConfig) → IsAscending vs → IsDistinct (addresses vs)
IsAscending-IsDistinct [] s = tt
IsAscending-IsDistinct (v ∷ vs) s =
    (Ascends-contains v.address.addr vs s, Ascends-IsDistinct v.address.addr vs s)

-- Neither the sorting nor the removal loses an address.
contains-insert :
    (v : VipConfig) (vs : List VipConfig) (q : IpAddr)
    → BTreeSet.contains (addresses (insert_by_address v vs)) q
      ≡ (if same q v.address.addr then true else BTreeSet.contains (addresses vs) q)
unfolding insert_by_address BTreeSet.contains
contains-insert v [] q = refl
contains-insert v (x ∷ xs) q = ground (arith, contains-insert v xs q)

contains-sort :
    (vs : List VipConfig) (q : IpAddr)
    → BTreeSet.contains (addresses (sort_by_address vs)) q ≡ BTreeSet.contains (addresses vs) q
unfolding sort_by_address BTreeSet.contains
contains-sort [] q = refl
contains-sort (v ∷ vs) q =
    ground (arith, contains-insert v (sort_by_address vs) q, contains-sort vs q)

contains-dedup_after :
    (a : IpAddr) (vs : List VipConfig) (q : IpAddr)
    → (if same q a then true else BTreeSet.contains (addresses (dedup_after a vs)) q)
      ≡ (if same q a then true else BTreeSet.contains (addresses vs) q)
unfolding dedup_after BTreeSet.contains
contains-dedup_after a [] q = refl
contains-dedup_after a (v ∷ vs) q = ground (
  arith,
  contains-dedup_after a vs q,
  contains-dedup_after v.address.addr vs q,
  ip_ord.eq_of_cmp a v.address.addr,
)

contains-dedup :
    (vs : List VipConfig) (q : IpAddr)
    → BTreeSet.contains (addresses (dedup_by_address vs)) q ≡ BTreeSet.contains (addresses vs) q
unfolding dedup_by_address BTreeSet.contains
contains-dedup [] q = refl
contains-dedup (v ∷ vs) q = contains-dedup_after v.address.addr vs q

pub contains-sorted :
    (vs : List VipConfig) (q : IpAddr)
    → BTreeSet.contains (addresses (dedup_by_address (sort_by_address vs))) q
      ≡ BTreeSet.contains (addresses vs) q
contains-sorted vs q = contains-dedup (sort_by_address vs) q ∙ contains-sort vs q

-- What holds of every VIP still does.
module _ (P : VipConfig → Type 0) where
  insert-All :
      (v : VipConfig) (vs : List VipConfig) → P v → All P vs → All P (insert_by_address v vs)
  unfolding insert_by_address
  insert-All v [] p ps = (p, tt)
  insert-All v (x ∷ xs) p ps = ground (arith, insert-All v xs p ps.1)

  sort-All : (vs : List VipConfig) → All P vs → All P (sort_by_address vs)
  unfolding sort_by_address
  sort-All [] ps = tt
  sort-All (v ∷ vs) ps = insert-All v (sort_by_address vs) ps.0 (sort-All vs ps.1)

  dedup_after-All : (a : IpAddr) (vs : List VipConfig) → All P vs → All P (dedup_after a vs)
  unfolding dedup_after
  dedup_after-All a [] ps = tt
  dedup_after-All a (v ∷ vs) ps =
      ground (arith, dedup_after-All a vs ps.1, dedup_after-All v.address.addr vs ps.1)

  dedup-All : (vs : List VipConfig) → All P vs → All P (dedup_by_address vs)
  unfolding dedup_by_address
  dedup-All [] ps = tt
  dedup-All (v ∷ vs) ps = (ps.0, dedup_after-All v.address.addr vs ps.1)

  pub sorted-All : (vs : List VipConfig) → All P vs → All P (dedup_by_address (sort_by_address vs))
  sorted-All vs ps = dedup-All (sort_by_address vs) (sort-All vs ps)
