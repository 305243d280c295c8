-- ===== src/BTreeMap/Sums.antt =====
-- A sum over the values of a map, and how `insert` changes it.
use keep_afloat_d.Prelude.{ℕ, ◌+◌, ◌≤◌, Option, none, some, [], ◌∷◌, ◌≡◌, Ord, arith}
use keep_afloat_d.BTreeMap.{BTreeMap, get, insert}
use keep_afloat_d.BTreeMap.Order.{IsSorted, Above-trans, get_below}

-- What an absent key adds is nothing.
abbrev pub weigh {κ} : {V : Type κ} → (V → ℕ) → Option V → ℕ
weigh f none = 0
weigh f (some v) = f v

module _ {ℓ κ} {K : Type ℓ} {V : Type κ} (f : V → ℕ) where
  abbrev pub sum_values : BTreeMap K V → ℕ
  sum_values [] = 0
  sum_values ((k, v) ∷ m) = f v + sum_values m

module _ {ℓ κ} {K : Type ℓ} {V : Type κ} ⦃o : Ord K⦄ (f : V → ℕ) where
  -- The new value replaces the weight of the old one.
  pub sum_values-insert :
      (m : BTreeMap K V) (q : K) (w : V)
      → IsSorted m
      → sum_values f (insert m q w) + weigh f (get m q) ≡ sum_values f m + f w
  unfolding get insert
  sum_values-insert [] q w s = omega arith
  sum_values-insert ((k, v) ∷ m) q w s =
      ground (arith, sum_values-insert m q w, get_below m q, Above-trans q k m)

  pub weigh-le-sum_values : (m : BTreeMap K V) (q : K) → weigh f (get m q) ≤ sum_values f m
  unfolding get
  weigh-le-sum_values [] q = omega arith
  weigh-le-sum_values ((k, v) ∷ m) q = ground (arith, weigh-le-sum_values m q)
