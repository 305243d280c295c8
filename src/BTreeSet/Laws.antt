-- ===== src/BTreeSet/Laws.antt =====
-- Membership after each operation, and the greatest element.
use keep_afloat_d.Prelude.{
  true, false, ◌||◌, some, List, [], ◌∷◌, ◌≡◌, refl, Ord, same, if◌then◌else◌, arith, last?,
}
use keep_afloat_d.BTreeSet.{BTreeSet, contains, insert, remove, extend, collect}

module _ {ℓ} {A : Type ℓ} ⦃o : Ord A⦄ where
  pub contains-insert :
      (s : BTreeSet A) (q p : A)
      → contains (insert s q) p ≡ (if same p q then true else contains s p)
  unfolding contains insert
  contains-insert [] q p = refl
  contains-insert (x ∷ s) q p =
      ground (arith, contains-insert s q p, o.eq_of_cmp q x, o.eq_of_cmp p q, o.eq_of_cmp p x)

  pub contains-remove :
      (s : BTreeSet A) (q p : A)
      → contains (remove s q) p ≡ (if same p q then false else contains s p)
  unfolding contains remove
  contains-remove [] q p = ground arith
  contains-remove (x ∷ s) q p = ground (
    arith,
    contains-remove s q p,
    o.eq_of_cmp q x,
    o.eq_of_cmp p q,
    o.eq_of_cmp p x,
    o.cmp_refl p,
  )

  pub contains-extend :
      (xs : List A) (s : BTreeSet A) (p : A)
      → contains (extend s xs) p ≡ (contains s p || contains xs p)
  unfolding contains extend
  contains-extend [] s p = ground arith
  contains-extend (x ∷ xs) s p =
      ground (arith, contains-extend xs (insert s x) p, contains-insert s x p)

  pub contains-collect : (xs : List A) (p : A) → contains (collect xs) p ≡ contains xs p
  unfolding collect contains
  contains-collect xs p = ground (arith, contains-extend xs [] p)

  pub contains-last : (s : BTreeSet A) (x : A) → last? s ≡ some x → contains s x ≡ true
  unfolding contains
  contains-last [] x h = ground arith
  contains-last (y ∷ []) x h = ground (arith, o.cmp_refl x)
  contains-last (y ∷ z ∷ s) x h = ground (arith, contains-last (z ∷ s) x h)

  pub last-contains : (s : BTreeSet A) (p : A) → contains s p ≡ true → (x : A) × (last? s ≡ some x)
  unfolding contains
  last-contains [] p h = ground arith
  last-contains (y ∷ []) p h = (y, refl)
  last-contains (y ∷ z ∷ s) p h = last_of_cons z s
    where
      last_of_cons : (z : A) (s : List A) → (x : A) × (last? (y ∷ z ∷ s) ≡ some x)
      last_of_cons z [] = (z, refl)
      last_of_cons z (w ∷ s) = last_of_cons w s
