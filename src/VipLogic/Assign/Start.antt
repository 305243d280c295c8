-- ===== src/VipLogic/Assign/Start.antt =====
-- The placement that pass 3 starts from.
use keep_afloat_d.Prelude.{
  ℕ, Bool, true, not, ◌&&◌, none, some, List, [], ◌∷◌, ◌≡◌, refl, ◌∙◌, arith, nat_ord, is_some,
  if◌then◌else◌,
}
use keep_afloat_d.BTreeMap
use keep_afloat_d.BTreeMap.{BTreeMap}
use keep_afloat_d.BTreeMap.Laws.{get-insert}
use keep_afloat_d.BTreeMap.Order.{IsSorted, insert-IsSorted}
use keep_afloat_d.BTreeSet
use keep_afloat_d.BTreeSet.{BTreeSet}
use keep_afloat_d.BTreeSet.Laws.{contains-collect}
use keep_afloat_d.BTreeSet.Distinct.{IsDistinct, contains-retain, retain-IsDistinct}
use keep_afloat_d.Addr.{IpAddr, ip_ord}
use keep_afloat_d.VipLogic.Assign.{Placement, keep_holders, place_orphans, zero_load, place_all}
use keep_afloat_d.VipLogic.Assign.Consistent.{IsConsistent}
use keep_afloat_d.VipLogic.Assign.Passes.{
  stays, Unplaced, Kept, keep_holders-Kept, place_orphans-Placed,
}

get-zero_load :
    (eligible : List ℕ) (n : ℕ)
    → BTreeMap.get (zero_load eligible) n ≡ (if BTreeSet.contains eligible n then some 0 else none)
unfolding zero_load BTreeSet.contains BTreeMap.get
get-zero_load [] n = refl
get-zero_load (id ∷ eligible) n =
    ground (arith, get-zero_load eligible n, get-insert (zero_load eligible) id n 0)

zero_load-IsSorted : (eligible : List ℕ) → IsSorted (zero_load eligible)
unfolding zero_load
zero_load-IsSorted [] = tt
zero_load-IsSorted (id ∷ eligible) =
    insert-IsSorted (zero_load eligible) id 0 (zero_load-IsSorted eligible)

abbrev start : List ℕ → Placement
start eligible = record { out = []; load = zero_load eligible; held = [] }

start-IsConsistent : (eligible : List ℕ) → IsConsistent (BTreeSet.collect eligible) (start eligible)
unfolding BTreeMap.get BTreeSet.contains
start-IsConsistent eligible = record {
  out_sorted = tt;
  load_sorted = zero_load-IsSorted eligible;
  counted = λ n. ground (arith, get-zero_load eligible n);
  domain = λ n. ground (arith, get-zero_load eligible n, contains-collect eligible n);
  listed = λ n v. refl;
}

Unplaced-start : (vips : List IpAddr) (eligible : List ℕ) → Unplaced vips (start eligible)
unfolding BTreeMap.get
Unplaced-start [] eligible = tt
Unplaced-start (vip ∷ vips) eligible = (refl, Unplaced-start vips eligible)

Unplaced-of_get :
    (vips : List IpAddr) (p : Placement)
    → ((w : IpAddr) → BTreeSet.contains vips w ≡ true → BTreeMap.get p.out w ≡ none)
    → Unplaced vips p
unfolding BTreeSet.contains
Unplaced-of_get [] p h = tt
Unplaced-of_get (vip ∷ vips) p h = (
  ground (arith, h vip, ip_ord.cmp_refl vip),
  Unplaced-of_get vips p (λ w c. ground (arith, h w, c)),
)

-- What is known of the placement after passes 1 and 2.
pub record AllPlaced (eligible : List ℕ) (vips : List IpAddr) (current : BTreeMap IpAddr ℕ)
    (p : Placement) : Type 0 where
  pub consistent : IsConsistent (BTreeSet.collect eligible) p
  pub domain : (w : IpAddr) → is_some (BTreeMap.get p.out w) ≡ BTreeSet.contains vips w
  pub kept :
      (w : IpAddr) (n : ℕ)
      → BTreeSet.contains vips w ≡ true
      → stays (BTreeSet.collect eligible) (BTreeMap.get current w) ≡ some n
      → BTreeMap.get p.out w ≡ some n

module _ (id : ℕ) (ids : List ℕ) (current : BTreeMap IpAddr ℕ) (vips : List IpAddr)
    (distinct : IsDistinct vips) where
  abbrev nodes : BTreeSet ℕ
  nodes = BTreeSet.collect (id ∷ ids)

  nodes-id : BTreeSet.contains nodes id ≡ true
  nodes-id = contains-collect (id ∷ ids) id ∙ head_contained
    where
      head_contained : BTreeSet.contains (id ∷ ids) id ≡ true
      head_contained = unfold BTreeSet.contains in ground arith

  after_keep :
      Kept nodes current vips []
        (start (id ∷ ids))
        (keep_holders nodes current vips (start (id ∷ ids), []))
  after_keep =
      keep_holders-Kept nodes current vips [] (start (id ∷ ids)) distinct
        (Unplaced-start vips (id ∷ ids)) (start-IsConsistent (id ∷ ids))

  abbrev leftover : IpAddr → Bool
  leftover vip = not (is_some (stays nodes (BTreeMap.get current vip)))

  module _ (r : Placement × List IpAddr) (k : Kept nodes current vips [] (start (id ∷ ids)) r) where
    orphans-contains :
        (w : IpAddr) → BTreeSet.contains r.1 w ≡ (BTreeSet.contains vips w && leftover w)
    orphans-contains w = rw k.left (contains-retain leftover vips w)

    orphans-IsDistinct : IsDistinct r.1
    orphans-IsDistinct = rw k.left (retain-IsDistinct leftover vips distinct)

    orphans-Unplaced : Unplaced r.1 r.0
    orphans-Unplaced =
        Unplaced-of_get r.1 r.0 (λ w h. ground (arith, h, orphans-contains w, k.reads w))

    reads_start : (w : IpAddr) → BTreeMap.get (start (id ∷ ids)).out w ≡ none
    unfolding BTreeMap.get
    reads_start w = refl

    after_orphans : AllPlaced (id ∷ ids) vips current (place_orphans r.1 r.0)
    after_orphans =
        let placed =
          place_orphans-Placed nodes id nodes-id r.1 r.0 orphans-IsDistinct orphans-Unplaced
            k.consistent in
        record {
          consistent = placed.consistent;
          domain = λ w.
              ground
                (arith, placed.old w, placed.new w, orphans-contains w, k.reads w, reads_start w);
          kept = λ w n h e. ground (arith, placed.old w, orphans-contains w, k.reads w);
        }

  pub place_all-AllPlaced : AllPlaced (id ∷ ids) vips current (place_all (id ∷ ids) vips current)
  unfolding place_all
  place_all-AllPlaced =
      after_orphans (keep_holders nodes current vips (start (id ∷ ids), [])) after_keep
