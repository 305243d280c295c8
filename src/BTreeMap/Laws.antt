-- ===== src/BTreeMap/Laws.antt =====
-- What `get` returns after each operation. These laws need no order of the list.
use keep_afloat_d.Prelude.{
  none, some, [], ◌∷◌, ◌≡◌, refl, Ord, same, same_self, if◌then◌else◌, arith,
}
use keep_afloat_d.BTreeMap.{BTreeMap, get, insert, remove}

module _ {ℓ κ} {K : Type ℓ} {V : Type κ} ⦃o : Ord K⦄ where
  pub get-insert :
      (m : BTreeMap K V) (q p : K) (w : V)
      → get (insert m q w) p ≡ (if same p q then some w else get m p)
  unfolding get insert
  get-insert [] q p w = refl
  get-insert ((k, v) ∷ m) q p w =
      ground (arith, get-insert m q p w, o.eq_of_cmp q k, o.eq_of_cmp p q, o.eq_of_cmp p k)

  pub get-insert_self : (m : BTreeMap K V) (q : K) (w : V) → get (insert m q w) q ≡ some w
  get-insert_self m q w = ground (arith, get-insert m q q w, same_self q)

  pub get-remove :
      (m : BTreeMap K V) (q p : K) → get (remove m q) p ≡ (if same p q then none else get m p)
  unfolding get remove
  get-remove [] q p = ground arith
  get-remove ((k, v) ∷ m) q p =
      ground
        (arith, get-remove m q p, o.eq_of_cmp q k, o.eq_of_cmp p q, o.eq_of_cmp p k, o.cmp_refl p)
