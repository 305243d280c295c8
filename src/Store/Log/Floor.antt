-- ===== src/Store/Log/Floor.antt =====
-- The purge floor and the log above it.
use keep_afloat_d.Prelude.{
  max, unwrap_or, String, ℕ, ◌<◌, true, false, Option, none, some, ◌≡◌, arith, if◌then◌else◌,
  nat_ord, ltb, is_some, Result, ok, err,
}
use keep_afloat_d.BTreeMap
use keep_afloat_d.BTreeMap.{BTreeMap}
use keep_afloat_d.BTreeMap.Order.{IsSorted, get-retain, retain-IsSorted}
use keep_afloat_d.Store.OpenRaft.{OpenRaft}
use keep_afloat_d.Store.State.{KafStorageState, Entry}
use keep_afloat_d.Store.Log.{
  check_mutation, guarded, truncate, compact, purge, truncate_after, truncate_start, index_of,
  option_ltb,
}

-- An index above the floor.
abbrev pub AboveFloor : Option ℕ → ℕ → Type 0
AboveFloor none i = Unit
AboveFloor (some p) i = p < i

module _ (raft : OpenRaft) where
  -- The floor after a truncation.
  truncate-floor :
      (l p : Option raft.LogId)
      → option_ltb
          (index_of raft l)
          (index_of raft (if option_ltb (index_of raft l) (index_of raft p) then l else p))
        ≡ false
  truncate-floor l p = ground arith

module _ {raft : OpenRaft} where
  -- The log is in order, and holds nothing at or below the purge floor.
  pub record IsFloored (s : KafStorageState raft) : Type 0 where
    pub sorted : IsSorted s.log
    pub above :
        (i : ℕ)
        → is_some (BTreeMap.get s.log i) ≡ true
        → AboveFloor (index_of raft s.last_purged_log_id) i

  compact-IsFloored :
      (l : raft.LogId) (s : KafStorageState raft) → IsFloored s → IsFloored (compact l s)
  unfolding compact
  compact-IsFloored l s f = record {
    sorted = retain-IsSorted _ s.log f.sorted;
    above = λ i h. ground (
      arith,
      get-retain (λ k (_ : Entry raft). ltb (raft.index l) k) s.log i f.sorted,
      f.above i,
    );
  }

  truncate-IsFloored :
      (l : Option raft.LogId) (s : KafStorageState raft) → IsFloored s → IsFloored (truncate l s)
  unfolding truncate
  truncate-IsFloored l s f = record {
    sorted = retain-IsSorted _ s.log f.sorted;
    above = λ i h. ground (
      arith,
      get-retain (λ k (_ : Entry raft). ltb k (truncate_start raft l)) s.log i f.sorted,
      f.above i,
    );
  }

  guarded-IsFloored :
      (r : Result (Unit {0}) String) (s t : KafStorageState raft)
      → IsFloored s
      → IsFloored t
      → IsFloored (guarded r s t).0
  guarded-IsFloored (err e) s t f g = f
  guarded-IsFloored (ok permitted) s t f g = g

  -- In an ordered log above its purge floor, a purge and a truncation leave the log so, whether local
  -- authority permits them or refuses them; and the effect of a truncation leaves the floor no higher than
  -- the last log id that it keeps.
  pub purge-truncate-IsFloored :
      (now : ℕ) (l : raft.LogId) (last_log_id : Option raft.LogId) (s : KafStorageState raft)
      → IsFloored s
      → IsFloored (purge now l s).0
        × (IsFloored (truncate_after now last_log_id s).0
            × (option_ltb
                  (index_of raft last_log_id)
                  (index_of raft (truncate last_log_id s).last_purged_log_id)
                ≡ false))
  unfolding purge truncate_after truncate
  purge-truncate-IsFloored now l last_log_id s f = (
    guarded-IsFloored (check_mutation now s) s _ f (compact-IsFloored l s f),
    (
      guarded-IsFloored (check_mutation now s) s _ f (truncate-IsFloored last_log_id s f),
      truncate-floor raft last_log_id s.last_purged_log_id,
    ),
  )

  -- A permitted purge of an ordered log leaves exactly the entries above `l`, and the floor is then at `l` or
  -- where it was, whichever is higher.
  compact_lem :
      (l : raft.LogId) (s : KafStorageState raft)
      → IsSorted s.log
      → ((i : ℕ)
          → BTreeMap.get (compact l s).log i
            ≡ (if ltb (raft.index l) i then BTreeMap.get s.log i else none))
        × (index_of raft (compact l s).last_purged_log_id
            ≡ some (max (raft.index l) (unwrap_or (index_of raft s.last_purged_log_id) 0)))
  unfolding compact
  compact_lem l s sorted = (
    λ i. ground (arith, get-retain (λ k (_ : Entry raft). ltb (raft.index l) k) s.log i sorted),
    ground arith,
  )
