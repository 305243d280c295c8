-- ===== src/BTreeSet/Counting.antt =====
-- How many elements there are, and that two majorities of one set meet.
use keep_afloat_d.Prelude.{
  ◌+◌, ◌≤◌, ◌<◌, ◌≡◌, refl, true, false, List, [], ◌∷◌, length, Ord, Bool-cases, inl, inr, arith,
}
use keep_afloat_d.BTreeSet.{BTreeSet, contains, insert, remove}
use keep_afloat_d.BTreeSet.Laws.{contains-remove}
use keep_afloat_d.BTreeSet.Distinct.{IsDistinct}

module _ {ℓ} {A : Type ℓ} ⦃o : Ord A⦄ where
  abbrev pub IsSubset : List A → List A → Type ℓ
  IsSubset xs s = (p : A) → contains xs p ≡ true → contains s p ≡ true

  pub length-insert :
      (s : BTreeSet A) (q : A) → contains s q ≡ false → length (insert s q) ≡ length s + 1
  unfolding contains insert
  length-insert [] q f = refl
  length-insert (x ∷ s) q f = ground (arith, length-insert s q)

  length-remove : (s : BTreeSet A) (q : A) → length (remove s q) ≤ length s
  unfolding remove
  length-remove [] q = omega arith
  length-remove (x ∷ s) q = ground (arith, length-remove s q)

  length-remove-contains :
      (s : BTreeSet A) (q : A) → contains s q ≡ true → length (remove s q) < length s
  unfolding contains remove
  length-remove-contains [] q h = ground arith
  length-remove-contains (x ∷ s) q h = ground (arith, length-remove-contains s q, length-remove s q)

  IsSubset-remove :
      (x : A) (xs s : List A) → contains xs x ≡ false → IsSubset xs s → IsSubset xs (remove s x)
  IsSubset-remove x xs s f sub p h = ground (arith, contains-remove s x p, sub p h, o.eq_of_cmp p x)

  IsSubset-tail : (x : A) (xs s : List A) → IsSubset (x ∷ xs) s → IsSubset xs s
  unfolding contains
  IsSubset-tail x xs s sub p h = sub p (ground arith)

  contains-head : (x : A) (xs : List A) → contains (x ∷ xs) x ≡ true
  unfolding contains
  contains-head x xs = ground (arith, o.cmp_refl x)

  contains-tail : (x : A) (xs : List A) (p : A) → contains xs p ≡ true → contains (x ∷ xs) p ≡ true
  unfolding contains
  contains-tail x xs p h = ground arith

  pub length-IsSubset : (xs s : List A) → IsDistinct xs → IsSubset xs s → length xs ≤ length s
  length-IsSubset [] s d sub = omega arith
  length-IsSubset (x ∷ xs) s d sub =
      let rest =
        length-IsSubset xs (remove s x) d.1
          (IsSubset-remove x xs s d.0 (IsSubset-tail x xs s sub)) in
      let less = length-remove-contains s x (sub x (contains-head x xs)) in omega arith

  -- Two lists without repetition, which together are longer than a set that has both, meet.
  pub IsSubset-overlap :
      (xs ys s : List A)
      → IsDistinct xs
      → IsDistinct ys
      → IsSubset xs s
      → IsSubset ys s
      → length s < length xs + length ys
      → (p : A) × ((contains xs p ≡ true) × (contains ys p ≡ true))
  IsSubset-overlap [] ys s dx dy sx sy lt = absurd (omega (arith, length-IsSubset ys s dy sy))
  IsSubset-overlap (x ∷ xs) ys s dx dy sx sy lt = elim (Bool-cases (contains ys x)) [
    | inl here ↦ (x, (contains-head x xs, here))
    | inr apart ↦
        let less = length-remove-contains s x (sx x (contains-head x xs)) in
        let (p, (hx, hy)) =
          IsSubset-overlap xs ys (remove s x) dx.1 dy
            (IsSubset-remove x xs s dx.0 (IsSubset-tail x xs s sx))
            (IsSubset-remove x ys s apart sy) (omega arith) in
        (p, (contains-tail x xs p hx, hy))
  ]
