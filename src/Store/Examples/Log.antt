-- ===== src/Store/Examples/Log.antt =====
-- Instances of the theorems on the log half of the store.
use keep_afloat_d.Prelude.{false, ◌&&◌, some, [], ◌∷◌, ◌≡◌, refl, nat_ord, arith}
use keep_afloat_d.BTreeMap
use keep_afloat_d.BTreeMap.{BTreeMap}
use keep_afloat_d.Store.State.{KafStorageState, blank}
use keep_afloat_d.Store.Log.{
  included, excluded, entries, panicked, above_start, below_end, try_get_log_entries, purge,
  truncate_after, truncate, option_ltb, index_of,
}
use keep_afloat_d.Store.Log.Reads.{try_get_log_entries_lem, try_get_log_entries-panicked}
use keep_afloat_d.Store.Log.Floor.{IsFloored, purge-truncate-IsFloored}
use keep_afloat_d.Store.Examples.{engine, entry, booted}

-- Entries 5 to 7 above a floor at 4.
abbrev backfilled : KafStorageState engine
backfilled = record booted {
  last_purged_log_id = some (1, 4);
  log = (5, entry 5 blank) ∷ (6, entry 6 blank) ∷ (7, entry 7 blank) ∷ [];
}

backfilled-IsFloored : IsFloored backfilled
unfolding BTreeMap.get
backfilled-IsFloored = record {
  sorted = ((refl, (refl, tt)), ((refl, tt), (tt, tt)));
  above = λ i h. ground arith;
}

try_get_log_entries_lem_example :
    try_get_log_entries (included 6) (excluded 8) backfilled
    ≡ entries (
        BTreeMap.values (
          BTreeMap.retain
            (λ i _. above_start (included 6) i && below_end (excluded 8) i)
            backfilled.log))
try_get_log_entries_lem_example =
    try_get_log_entries_lem (included 6) (excluded 8) backfilled (omega arith) tt
      (λ e. omega (arith, e))

try_get_log_entries-panicked_example :
    try_get_log_entries (included 6) (excluded 0) backfilled ≡ panicked
try_get_log_entries-panicked_example = try_get_log_entries-panicked 5 backfilled

purge-truncate-IsFloored_example :
    IsFloored (purge 10 (1, 6) backfilled).0
    × (IsFloored (truncate_after 10 (some (1, 3)) backfilled).0
        × (option_ltb
              (some 3)
              (index_of engine (truncate (some (1, 3)) backfilled).last_purged_log_id)
            ≡ false))
purge-truncate-IsFloored_example =
    purge-truncate-IsFloored 10 (1, 6) (some (1, 3)) backfilled backfilled-IsFloored
