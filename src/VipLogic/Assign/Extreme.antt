-- ===== src/VipLogic/Assign/Extreme.antt =====
-- What `least_loaded_node` and `most_loaded_node` return.
use keep_afloat_d.Prelude.{
  ℕ, ◌≤◌, Bool, true, Option, none, some, [], ◌∷◌, ◌≡◌, refl, leb, arith, nat_ord, ◌⊎◌, inl,
  is_some,
}
use keep_afloat_d.BTreeMap.{BTreeMap, get, get_or, contains_key}
use keep_afloat_d.BTreeMap.Order.{IsSorted, get_below}
use keep_afloat_d.VipLogic.Assign.{
  extreme_from, extreme_loaded_node, least_loaded_node, most_loaded_node,
}

-- Every load of the map is at least `l`, or at most `l`.
abbrev pub AtLeast : ℕ → BTreeMap ℕ ℕ → Type 0
AtLeast l [] = Unit
AtLeast l ((k, v) ∷ m) = (l ≤ v) × AtLeast l m

abbrev pub AtMost : ℕ → BTreeMap ℕ ℕ → Type 0
AtMost l [] = Unit
AtMost l ((k, v) ∷ m) = (v ≤ l) × AtMost l m

AtLeast-mono : (k l : ℕ) (m : BTreeMap ℕ ℕ) → k ≤ l → AtLeast l m → AtLeast k m
AtLeast-mono k l [] h s = tt
AtLeast-mono k l ((j, v) ∷ m) h s = (omega arith, AtLeast-mono k l m h s.1)

pub AtLeast-get :
    (l : ℕ) (m : BTreeMap ℕ ℕ) (q : ℕ) → AtLeast l m → contains_key m q ≡ true → l ≤ get_or m q 0
unfolding get
AtLeast-get l [] q s h = ground arith
AtLeast-get l ((j, w) ∷ m) q s h = ground (arith, AtLeast-get l m q)

pub AtMost-get : (l : ℕ) (m : BTreeMap ℕ ℕ) (q : ℕ) → AtMost l m → get_or m q 0 ≤ l
unfolding get
AtMost-get l [] q s = omega arith
AtMost-get l ((j, w) ∷ m) q s = ground (arith, AtMost-get l m q)

-- The loop keeps `best` or returns an entry, and what it returns bounds all that it has seen.
least_from :
    (m : BTreeMap ℕ ℕ) (b bl id l : ℕ)
    → extreme_from (λ l bl. leb bl l) m (some (b, bl)) ≡ some (id, l)
    → (l ≤ bl) × AtLeast l m
unfolding extreme_from
least_from [] b bl id l h = (ground arith, tt)
least_from ((k, v) ∷ m) b bl id l h = ground (arith, least_from m b bl id l, least_from m k v id l)

most_from :
    (m : BTreeMap ℕ ℕ) (b bl id l : ℕ)
    → extreme_from (λ l bl. leb l bl) m (some (b, bl)) ≡ some (id, l)
    → (bl ≤ l) × AtMost l m
unfolding extreme_from
most_from [] b bl id l h = (ground arith, tt)
most_from ((k, v) ∷ m) b bl id l h = ground (arith, most_from m b bl id l, most_from m k v id l)

pub least-AtLeast : (m : BTreeMap ℕ ℕ) (id l : ℕ) → least_loaded_node m ≡ some (id, l) → AtLeast l m
unfolding least_loaded_node
least-AtLeast [] id l h = tt
least-AtLeast ((k, v) ∷ m) id l h = ground (arith, least_from m k v id l)

pub most-AtMost : (m : BTreeMap ℕ ℕ) (id l : ℕ) → most_loaded_node m ≡ some (id, l) → AtMost l m
unfolding most_loaded_node
most-AtMost [] id l h = tt
most-AtMost ((k, v) ∷ m) id l h = ground (arith, most_from m k v id l)

-- The loop returns what it began with, or an entry of the map.
extreme_from-mem :
    (f : ℕ → ℕ → Bool) (m : BTreeMap ℕ ℕ) (best : Option (ℕ × ℕ)) (id l : ℕ)
    → IsSorted m
    → extreme_from f m best ≡ some (id, l)
    → (best ≡ some (id, l)) ⊎ (get m id ≡ some l)
unfolding extreme_from get
extreme_from-mem f [] best id l s h = inl h
extreme_from-mem f ((k, v) ∷ m) none id l s h =
    ground (arith, extreme_from-mem f m (some (k, v)) id l s.1 h, get_below m k s.0)
extreme_from-mem f ((k, v) ∷ m) (some (b, bl)) id l s h = ground (
  arith,
  extreme_from-mem f m (some (k, v)) id l s.1,
  extreme_from-mem f m (some (b, bl)) id l s.1,
  get_below m k s.0,
)

extreme_from-is_some :
    (f : ℕ → ℕ → Bool) (m : BTreeMap ℕ ℕ) (b bl : ℕ)
    → is_some (extreme_from f m (some (b, bl))) ≡ true
unfolding extreme_from
extreme_from-is_some f [] b bl = refl
extreme_from-is_some f ((k, v) ∷ m) b bl =
    ground (arith, extreme_from-is_some f m b bl, extreme_from-is_some f m k v)

-- A map with a key has an extreme node.
pub extreme-is_some :
    (f : ℕ → ℕ → Bool) (m : BTreeMap ℕ ℕ) (q : ℕ)
    → contains_key m q ≡ true
    → is_some (extreme_loaded_node m f) ≡ true
unfolding extreme_loaded_node get
extreme-is_some f [] q h = ground arith
extreme-is_some f ((k, v) ∷ m) q h = extreme_from-is_some f m k v

-- What the search returns is an entry of the map.
pub extreme-mem :
    (f : ℕ → ℕ → Bool) (m : BTreeMap ℕ ℕ) (id l : ℕ)
    → IsSorted m
    → extreme_loaded_node m f ≡ some (id, l)
    → get m id ≡ some l
unfolding extreme_loaded_node
extreme-mem f m id l s h = ground (arith, extreme_from-mem f m none id l s h)

pub most-mem :
    (m : BTreeMap ℕ ℕ) (id l : ℕ)
    → IsSorted m
    → most_loaded_node m ≡ some (id, l)
    → get m id ≡ some l
unfolding most_loaded_node
most-mem m id l s h = extreme-mem _ m id l s h

pub most-is_some :
    (m : BTreeMap ℕ ℕ) (q : ℕ) → contains_key m q ≡ true → is_some (most_loaded_node m) ≡ true
unfolding most_loaded_node
most-is_some m q h = extreme-is_some _ m q h

pub least-is_some :
    (m : BTreeMap ℕ ℕ) (q : ℕ) → contains_key m q ≡ true → is_some (least_loaded_node m) ≡ true
unfolding least_loaded_node
least-is_some m q h = extreme-is_some _ m q h

pub least-mem :
    (m : BTreeMap ℕ ℕ) (id l : ℕ)
    → IsSorted m
    → least_loaded_node m ≡ some (id, l)
    → get m id ≡ some l
unfolding least_loaded_node
least-mem m id l s h = extreme-mem _ m id l s h
