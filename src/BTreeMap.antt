-- ===== src/BTreeMap.antt =====
-- `std::collections::BTreeMap`, as the association list that its iterator walks, in key order.
-- `entry(k).or_insert(d)` is `get_or` before `insert`, and `get_mut` is `get` before `insert`.
pub mod Laws
pub mod Order
pub mod Sums
use Prim.Native.Nat.Ordering.{lt, eq, gt}
use keep_afloat_d.Prelude.{
  Bool, true, false, Option, none, some, List, [], ◌∷◌, map, Ord, same, if◌then◌else◌, is_some,
  unwrap_or, not,
}

abbrev pub BTreeMap {ℓ κ} : Type ℓ → Type κ → Type (ℓ ⊔ κ)
BTreeMap K V = List (K × V)

module _ {ℓ κ} {K : Type ℓ} {V : Type κ} where
  abbrev pub keys : BTreeMap K V → List K
  keys [] = []
  keys ((k, v) ∷ m) = k ∷ keys m

  abbrev pub values : BTreeMap K V → List V
  values [] = []
  values ((k, v) ∷ m) = v ∷ values m

module _ {ℓ κ} {K : Type ℓ} {V : Type κ} ⦃o : Ord K⦄ where
  unfoldable pub get : BTreeMap K V → K → Option V
  get [] q = none
  get ((k, v) ∷ m) q = if same q k then some v else get m q

  abbrev pub get_or : BTreeMap K V → K → V → V
  get_or m q d = unwrap_or (get m q) d

  abbrev pub contains_key : BTreeMap K V → K → Bool
  contains_key m q = is_some (get m q)

  unfoldable pub insert : BTreeMap K V → K → V → BTreeMap K V
  insert [] q w = (q, w) ∷ []
  insert ((k, v) ∷ m) q w = elim (o.cmp q k) [
    | lt ↦ (q, w) ∷ (k, v) ∷ m
    | eq ↦ (q, w) ∷ m
    | gt ↦ (k, v) ∷ insert m q w
  ]

  unfoldable pub remove : BTreeMap K V → K → BTreeMap K V
  remove [] q = []
  remove ((k, v) ∷ m) q = let rest = remove m q in if same q k then rest else (k, v) ∷ rest

  -- `retain(|k, v| p(k, v))`, and `filter` over the iterator
  unfoldable pub retain : (K → V → Bool) → BTreeMap K V → BTreeMap K V
  retain p [] = []
  retain p ((k, v) ∷ m) = let rest = retain p m in if p k v then (k, v) ∷ rest else rest
