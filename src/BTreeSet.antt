-- ===== src/BTreeSet.antt =====
-- `std::collections::BTreeSet`, as the list that its iterator walks, in order.
pub mod Laws
pub mod Distinct
pub mod Counting
use Prim.Native.Nat.Ordering.{lt, eq, gt}
use keep_afloat_d.Prelude.{Bool, true, false, ◌||◌, List, [], ◌∷◌, Ord, same, if◌then◌else◌, all}

abbrev pub BTreeSet {ℓ} : Type ℓ → Type ℓ
BTreeSet A = List A

module _ {ℓ} {A : Type ℓ} ⦃o : Ord A⦄ where
  unfoldable pub contains : BTreeSet A → A → Bool
  contains [] q = false
  contains (x ∷ s) q = if same q x then true else contains s q

  unfoldable pub insert : BTreeSet A → A → BTreeSet A
  insert [] q = q ∷ []
  insert (x ∷ s) q = elim (o.cmp q x) [ lt ↦ q ∷ x ∷ s | eq ↦ q ∷ s | gt ↦ x ∷ insert s q ]

  unfoldable pub remove : BTreeSet A → A → BTreeSet A
  remove [] q = []
  remove (x ∷ s) q = let rest = remove s q in if same q x then rest else x ∷ rest

  -- `extend(iter)`, and `iter.collect()` into the empty set
  unfoldable pub extend : BTreeSet A → List A → BTreeSet A
  extend s [] = s
  extend s (x ∷ xs) = extend (insert s x) xs

  unfoldable pub collect : List A → BTreeSet A
  unfolding extend
  collect xs = extend [] xs

  abbrev pub is_subset : BTreeSet A → BTreeSet A → Bool
  is_subset s t = all (contains t) s
