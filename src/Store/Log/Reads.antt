-- ===== src/Store/Log/Reads.antt =====
-- What a read of the log returns, and the ranges on which it panics.
use keep_afloat_d.Prelude.{
  ℕ, suc, ◌≤◌, ◌≢◌, Bool, true, false, ◌&&◌, [], ◌∷◌, ◌≡◌, refl, arith, u64_max, nat_ord,
  Bool-cases, inl, inr,
}
use keep_afloat_d.BTreeMap
use keep_afloat_d.BTreeMap.{BTreeMap}
use keep_afloat_d.Store.OpenRaft.{OpenRaft}
use keep_afloat_d.Store.State.{KafStorageState}
use keep_afloat_d.Store.Log.{
  Bound, included, excluded, unbounded, entries, panicked, range_panics, above_start, below_end,
  first_index, last_index, is_inverted, try_get_log_entries,
}

-- A bound that `checked_add` and `checked_sub` can resolve.
abbrev pub IsStart : Bound → Type 0
IsStart (included i) = Unit
IsStart (excluded i) = i ≢ u64_max
IsStart unbounded = Unit

abbrev pub IsEnd : Bound → Type 0
IsEnd (included i) = Unit
IsEnd (excluded i) = i ≢ 0
IsEnd unbounded = Unit

abbrev pub Fits : Bound → Type 0
Fits (included i) = i ≤ u64_max
Fits (excluded i) = i ≤ u64_max
Fits unbounded = Unit

no_panic :
    (s e : Bound)
    → Fits s
    → IsStart s
    → IsEnd e
    → is_inverted (first_index s) (last_index e) ≡ false
    → range_panics s e ≡ false
no_panic s e f p q h = ground arith

retain_nothing :
    {A : Type 0} (p : ℕ → Bool) (m : BTreeMap ℕ A)
    → ((i : ℕ) → p i ≡ false)
    → BTreeMap.retain (λ i _. p i) m ≡ []
unfolding BTreeMap.retain
retain_nothing p [] h = refl
retain_nothing p ((i, a) ∷ m) h = ground (arith, h i, retain_nothing p m h)

inverted_empty :
    (s e : Bound) (i : ℕ)
    → is_inverted (first_index s) (last_index e) ≡ true
    → (above_start s i && below_end e i) ≡ false
inverted_empty s e i h = ground arith

module _ {raft : OpenRaft} where
  -- For a range of 64-bit bounds that does not start by excluding the last index and does not end by
  -- excluding index 0, a read does not panic: it gives the entries whose index is in the range, in the order
  -- of the log, and none if the range is inverted.
  pub try_get_log_entries_lem :
      (s e : Bound) (state : KafStorageState raft)
      → Fits s
      → IsStart s
      → IsEnd e
      → try_get_log_entries s e state
        ≡ entries
            (BTreeMap.values (BTreeMap.retain (λ i _. above_start s i && below_end e i) state.log))
  unfolding try_get_log_entries
  try_get_log_entries_lem s e state f p q =
      elim (Bool-cases (is_inverted (first_index s) (last_index e))) [
        | inl h ↦
            rw
              (
                h,
                retain_nothing (λ i. above_start s i && below_end e i) state.log
                    (λ i. inverted_empty s e i h),
              )
              refl
        | inr h ↦ rw (h, no_panic s e f p q h) refl
      ]

  -- A range that starts above index 0 and ends by excluding index 0 is inverted, but the read reaches a
  -- range query that is documented to panic.
  pub try_get_log_entries-panicked :
      (s : ℕ) (state : KafStorageState raft)
      → try_get_log_entries (included (suc s)) (excluded 0) state ≡ panicked
  unfolding try_get_log_entries
  try_get_log_entries-panicked s state = ground arith
