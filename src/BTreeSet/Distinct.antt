-- ===== src/BTreeSet/Distinct.antt =====
-- Lists in which no element stands twice, read through `contains`.
use keep_afloat_d.Prelude.{
  Bool, true, false, ◌||◌, ◌&&◌, List, [], ◌∷◌, ◌++◌, ◌≡◌, refl, Ord, same, if◌then◌else◌, arith,
  retain, insert_sorted, sort_unstable,
}
use keep_afloat_d.BTreeSet.{contains}

module _ {ℓ} {A : Type ℓ} ⦃o : Ord A⦄ where
  abbrev pub IsDistinct : List A → Type 0
  IsDistinct [] = Unit
  IsDistinct (x ∷ xs) = (contains xs x ≡ false) × IsDistinct xs

  pub contains-append :
      (xs ys : List A) (q : A) → contains (xs ++ ys) q ≡ (contains xs q || contains ys q)
  unfolding contains
  contains-append [] ys q = refl
  contains-append (x ∷ xs) ys q = ground (arith, contains-append xs ys q)

  pub contains-retain :
      (p : A → Bool) (xs : List A) (q : A) → contains (retain p xs) q ≡ (contains xs q && p q)
  unfolding contains
  contains-retain p [] q = refl
  contains-retain p (x ∷ xs) q = ground (arith, contains-retain p xs q, o.eq_of_cmp q x)

  pub retain-IsDistinct : (p : A → Bool) (xs : List A) → IsDistinct xs → IsDistinct (retain p xs)
  retain-IsDistinct p [] d = tt
  retain-IsDistinct p (x ∷ xs) d =
      ground (arith, retain-IsDistinct p xs d.1, contains-retain p xs x)

  contains-insert_sorted :
      (x : A) (xs : List A) (q : A)
      → contains (insert_sorted x xs) q ≡ (if same q x then true else contains xs q)
  unfolding contains insert_sorted
  contains-insert_sorted x [] q = refl
  contains-insert_sorted x (y ∷ ys) q = ground (arith, contains-insert_sorted x ys q)

  pub contains-sort : (xs : List A) (q : A) → contains (sort_unstable xs) q ≡ contains xs q
  unfolding contains sort_unstable
  contains-sort [] q = refl
  contains-sort (x ∷ xs) q =
      ground (arith, contains-insert_sorted x (sort_unstable xs) q, contains-sort xs q)

  insert_sorted-IsDistinct :
      (x : A) (xs : List A)
      → contains xs x ≡ false
      → IsDistinct xs
      → IsDistinct (insert_sorted x xs)
  unfolding contains insert_sorted
  insert_sorted-IsDistinct x [] f d = (refl, tt)
  insert_sorted-IsDistinct x (y ∷ ys) f d = ground (
    arith,
    insert_sorted-IsDistinct x ys,
    contains-insert_sorted x ys y,
    o.eq_of_cmp y x,
    o.cmp_refl x,
  )

  pub sort-IsDistinct : (xs : List A) → IsDistinct xs → IsDistinct (sort_unstable xs)
  unfolding sort_unstable
  sort-IsDistinct [] d = tt
  sort-IsDistinct (x ∷ xs) d = ground (
    arith,
    insert_sorted-IsDistinct x (sort_unstable xs),
    contains-sort xs x,
    sort-IsDistinct xs d.1,
  )
