-- ===== src/BTreeMap/Order.antt =====
-- The list is in strictly ascending key order, and every operation keeps it so.
use Prim.Native.Nat.Ordering.{lt}
use keep_afloat_d.Prelude.{Bool, none, some, if◌then◌else◌, [], ◌∷◌, ◌≡◌, refl, Ord, arith}
use keep_afloat_d.BTreeMap.{BTreeMap, get, insert, remove, retain}

module _ {ℓ κ} {K : Type ℓ} {V : Type κ} ⦃o : Ord K⦄ where
  -- Every key of the map is above `b`.
  abbrev pub Above : K → BTreeMap K V → Type 0
  Above b [] = Unit
  Above b ((k, v) ∷ m) = (o.cmp b k ≡ lt) × Above b m

  abbrev pub IsSorted : BTreeMap K V → Type 0
  IsSorted [] = Unit
  IsSorted ((k, v) ∷ m) = Above k m × IsSorted m

  pub Above-trans : (a b : K) (m : BTreeMap K V) → o.cmp a b ≡ lt → Above b m → Above a m
  Above-trans a b [] h s = tt
  Above-trans a b ((k, v) ∷ m) h s = (o.cmp_trans a b k h s.0, Above-trans a b m h s.1)

  Above-insert :
      (b q : K) (w : V) (m : BTreeMap K V) → o.cmp b q ≡ lt → Above b m → Above b (insert m q w)
  unfolding insert
  Above-insert b q w [] h s = (h, tt)
  Above-insert b q w ((k, v) ∷ m) h s = ground (arith, Above-insert b q w m h)

  pub insert-IsSorted : (m : BTreeMap K V) (q : K) (w : V) → IsSorted m → IsSorted (insert m q w)
  unfolding insert
  insert-IsSorted [] q w s = (tt, tt)
  insert-IsSorted ((k, v) ∷ m) q w s = ground (
    arith,
    insert-IsSorted m q w,
    Above-insert k q w m,
    o.cmp_flip q k,
    o.eq_of_cmp q k,
    Above-trans q k m,
  )

  Above-remove : (b q : K) (m : BTreeMap K V) → Above b m → Above b (remove m q)
  unfolding remove
  Above-remove b q [] s = tt
  Above-remove b q ((k, v) ∷ m) s = ground (arith, Above-remove b q m)

  pub remove-IsSorted : (m : BTreeMap K V) (q : K) → IsSorted m → IsSorted (remove m q)
  unfolding remove
  remove-IsSorted [] q s = tt
  remove-IsSorted ((k, v) ∷ m) q s = ground (arith, remove-IsSorted m q, Above-remove k q m)

  Above-retain : (b : K) (p : K → V → Bool) (m : BTreeMap K V) → Above b m → Above b (retain p m)
  unfolding retain
  Above-retain b p [] s = tt
  Above-retain b p ((k, v) ∷ m) s = ground (arith, Above-retain b p m)

  pub retain-IsSorted : (p : K → V → Bool) (m : BTreeMap K V) → IsSorted m → IsSorted (retain p m)
  unfolding retain
  retain-IsSorted p [] s = tt
  retain-IsSorted p ((k, v) ∷ m) s = ground (arith, retain-IsSorted p m, Above-retain k p m)

  -- A key below all of the map is not in it.
  pub get_below : (m : BTreeMap K V) (q : K) → Above q m → get m q ≡ none
  unfolding get
  get_below [] q s = refl
  get_below ((k, v) ∷ m) q s = ground (arith, get_below m q)

  -- A key that `retain` keeps reads back as before.
  pub get-retain :
      (p : K → V → Bool) (m : BTreeMap K V) (q : K)
      → IsSorted m
      → get (retain p m) q
        ≡ elim (get m q) [ none ↦ none | some v ↦ if p q v then some v else none ]
  unfolding get retain
  get-retain p [] q s = refl
  get-retain p ((k, v) ∷ m) q s =
      ground (arith, get-retain p m q s.1, o.eq_of_cmp q k, get_below m k s.0)

  -- Two maps in order that read alike are the same map.
  pub eq_of_get :
      (m n : BTreeMap K V) → IsSorted m → IsSorted n → ((q : K) → get m q ≡ get n q) → m ≡ n
  unfolding get
  eq_of_get [] [] s t h = refl
  eq_of_get [] ((k, v) ∷ n) s t h = absurd (ground (arith, h k, o.cmp_refl k))
  eq_of_get ((k, v) ∷ m) [] s t h = absurd (ground (arith, h k, o.cmp_refl k))
  eq_of_get ((k, v) ∷ m) ((j, w) ∷ n) s t h =
      let e : k ≡ j = ground (
        arith,
        h k,
        h j,
        o.cmp_refl k,
        o.cmp_refl j,
        o.eq_of_cmp k j,
        o.cmp_flip k j,
        get_below m j,
        get_below n k,
        Above-trans j k m,
        Above-trans k j n,
      ) in
      let rest : m ≡ n = eq_of_get m n s.1 t.1 (λ q.
        ground (
          arith,
          e,
          h q,
          o.eq_of_cmp q k,
          o.eq_of_cmp q j,
          get_below m k s.0,
          get_below n j t.0,
        )) in
      ground (arith, e, rest, h k, o.cmp_refl k)
