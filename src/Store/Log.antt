-- ===== src/Store/Log.antt =====
-- The log half of the store (src/raft/store/log.rs) and the check of local authority before every
-- mutation (src/raft/store/authority.rs). A mutation returns the state and its result.
pub mod Reads
pub mod Floor
use keep_afloat_d.Prelude.{
  ℕ, ◌+◌, ◌-◌, Bool, true, false, not, ◌&&◌, ◌||◌, Option, none, some, List, [], ◌∷◌, ltb, leb,
  ◌==◌, if◌then◌else◌, nat_ord, is_some, unwrap_or, last?, u64_max, Result, ok, err, String,
}
use keep_afloat_d.BTreeMap
use keep_afloat_d.BTreeMap.{BTreeMap}
use keep_afloat_d.Identity.{check_session, AdmissionSession}
use keep_afloat_d.Store.OpenRaft.{OpenRaft}
use keep_afloat_d.Store.State.{KafStorageState, Entry}

-- `Option<u64>` ordered by `None < Some`.
abbrev pub option_ltb : Option ℕ → Option ℕ → Bool
option_ltb none none = false
option_ltb none (some b) = true
option_ltb (some a) none = false
option_ltb (some a) (some b) = ltb a b

-- `std::ops::Bound`
pub data Bound : Type 0 where
  included excluded : ℕ → Bound
  unbounded : Bound

-- What a read of the log does; `BTreeMap::range` panics on some ranges.
pub data Read (A : Type 0) : Type 0 where
  entries : List A → Read A
  panicked : Read A

-- When `BTreeMap::range` panics, by its documentation: the start is above the end, or equal to it with
-- both excluded. What it does on a map without entries is left to that documentation too.
abbrev pub range_panics : Bound → Bound → Bool
range_panics (included s) (included e) = ltb e s
range_panics (included s) (excluded e) = ltb e s
range_panics (excluded s) (included e) = ltb e s
range_panics (excluded s) (excluded e) = leb e s
range_panics unbounded end = false
range_panics (included s) unbounded = false
range_panics (excluded s) unbounded = false

abbrev pub above_start : Bound → ℕ → Bool
above_start (included s) i = leb s i
above_start (excluded s) i = ltb s i
above_start unbounded i = true

abbrev pub below_end : Bound → ℕ → Bool
below_end (included e) i = leb i e
below_end (excluded e) i = ltb i e
below_end unbounded i = true

-- The first index of the range, with `checked_add`.
abbrev pub first_index : Bound → Option ℕ
first_index (included i) = some i
first_index (excluded i) = if ltb i u64_max then some (i + 1) else none
first_index unbounded = none

-- The last index of the range, with `checked_sub`.
abbrev pub last_index : Bound → Option ℕ
last_index (included i) = some i
last_index (excluded i) = if ltb 0 i then some (i - 1) else none
last_index unbounded = none

abbrev pub is_inverted : Option ℕ → Option ℕ → Bool
is_inverted (some s) (some e) = ltb e s
is_inverted none end = false
is_inverted (some s) none = false

abbrev pub is_purged : Option ℕ → ℕ → Bool
is_purged none i = false
is_purged (some p) i = leb i p

module _ (raft : OpenRaft) where
  -- `best` or `candidate`, whichever has the higher index.
  abbrev pub raise : Option raft.LogId → Option raft.LogId → Option raft.LogId
  raise best none = best
  raise none (some candidate) = some candidate
  raise (some b) (some candidate) =
      if ltb (raft.index b) (raft.index candidate) then some candidate else some b

  abbrev pub index_of : Option raft.LogId → Option ℕ
  index_of none = none
  index_of (some l) = some (raft.index l)

  abbrev pub covers : Option raft.LogId → Option raft.LogId → Bool
  covers tail none = false
  covers none (some purged) = false
  covers (some t) (some purged) = leb (raft.index purged) (raft.index t)

  -- The first index that `truncate_after` removes.
  abbrev pub truncate_start : Option raft.LogId → ℕ
  truncate_start none = 0
  truncate_start (some l) = raft.index l + 1

module _ {raft : OpenRaft} where
  -- The daemon is not a test build, so `admission_required` has no part in it.
  unfoldable pub check_mutation : ℕ → KafStorageState raft → Result (Unit {0}) String
  check_mutation now state = elim state.admission [
    | none ↦ err "storage requires local admission"
    | some session ↦ elim (check_session now session) [ err e ↦ err e | ok _ ↦ ok tt ]
  ]

  -- `check_mutation(&state)?` before the change of `state` to `changed`.
  abbrev pub guarded :
      Result (Unit {0}) String
      → KafStorageState raft
      → KafStorageState raft
      → KafStorageState raft × Result (Unit {0}) String
  guarded (err e) state changed = (state, err e)
  guarded (ok permitted) state changed = (changed, ok tt)

  unfoldable pub try_get_log_entries : Bound → Bound → KafStorageState raft → Read (Entry raft)
  try_get_log_entries start end state =
      if is_inverted (first_index start) (last_index end)
      then entries []
      else if range_panics start end
      then panicked
      else entries (
          BTreeMap.values
            (BTreeMap.retain (λ i _. above_start start i && below_end end i) state.log))

  unfoldable pub save_vote :
      ℕ → raft.Vote → KafStorageState raft → KafStorageState raft × Result (Unit {0}) String
  unfolding check_mutation
  save_vote now vote state =
      guarded (check_mutation now state) state (record state { vote = some vote })

  unfoldable pub save_committed :
      ℕ → Option raft.LogId → KafStorageState raft → KafStorageState raft × Result (Unit {0}) String
  unfolding check_mutation
  save_committed now committed state =
      guarded (check_mutation now state) state (record state { committed = committed })

  -- `log.iter().next_back().map(|(_, e)| e.log_id)`
  abbrev pub log_tail : BTreeMap ℕ (Entry raft) → Option raft.LogId
  log_tail log = elim (last? log) [ none ↦ none | some (_, e) ↦ some e.log_id ]

  unfoldable pub read_committed : KafStorageState raft → Option raft.LogId
  read_committed state =
      let best = raise raft state.committed state.last_applied_log in
      if covers raft (log_tail state.log) state.last_purged_log_id
      then raise raft best state.last_purged_log_id
      else best

  -- The floor below the first entry of a log that does not start at index 1.
  abbrev pub derived_floor : BTreeMap ℕ (Entry raft) → Option raft.LogId
  derived_floor [] = none
  derived_floor ((idx, e) ∷ log) =
      if ltb 1 idx then some (raft.log_id (raft.leader e.log_id) (idx - 1)) else none

  -- `get_log_state`: the purge floor and the last log id.
  unfoldable pub get_log_state : KafStorageState raft → Option raft.LogId × Option raft.LogId
  get_log_state state = (
    elim state.last_purged_log_id [ some p ↦ some p | none ↦ derived_floor state.log ],
    log_tail state.log,
  )

  abbrev pub is_empty_log : BTreeMap ℕ (Entry raft) → Bool
  is_empty_log [] = true
  is_empty_log (e ∷ log) = false

  -- One round of the loop of `append`, after the check.
  unfoldable pub append_one : Option ℕ → Entry raft → KafStorageState raft → KafStorageState raft
  append_one purged entry state =
      let i = raft.index entry.log_id in
      if is_purged purged i then state else record state {
        last_purged_log_id =
            if not (is_some state.last_purged_log_id) && is_empty_log state.log && ltb 1 i
            then some (raft.log_id (raft.leader entry.log_id) (i - 1))
            else state.last_purged_log_id;
        log = BTreeMap.insert state.log i entry;
      }

  -- The loop: each entry comes with the time at which its check runs.
  unfoldable pub append_from :
      Option ℕ
      → List (ℕ × Entry raft)
      → KafStorageState raft
      → KafStorageState raft × Result (Unit {0}) String
  unfolding append_one check_mutation
  append_from purged [] state = (state, ok tt)
  append_from purged ((now, entry) ∷ rest) state = elim (check_mutation now state) [
    | err e ↦ (state, err e)
    | ok _ ↦ append_from purged rest (append_one purged entry state)
  ]

  unfoldable pub append :
      ℕ
      → List (ℕ × Entry raft)
      → KafStorageState raft
      → KafStorageState raft × Result (Unit {0}) String
  unfolding append_from
  append now new_entries state = elim (check_mutation now state) [
    | err e ↦ (state, err e)
    | ok _ ↦ append_from (index_of raft state.last_purged_log_id) new_entries state
  ]

  -- The effect of `truncate_after`. Removing the collected keys one by one is `retain` of the others.
  unfoldable pub truncate : Option raft.LogId → KafStorageState raft → KafStorageState raft
  truncate last_log_id state = record state {
    log = BTreeMap.retain (λ i _. ltb i (truncate_start raft last_log_id)) state.log;
    last_purged_log_id =
        if option_ltb (index_of raft last_log_id) (index_of raft state.last_purged_log_id)
        then last_log_id
        else state.last_purged_log_id;
  }

  unfoldable pub truncate_after :
      ℕ → Option raft.LogId → KafStorageState raft → KafStorageState raft × Result (Unit {0}) String
  unfolding truncate
  truncate_after now last_log_id state =
      guarded (check_mutation now state) state (truncate last_log_id state)

  -- The effect of `purge` and of the end of `install_snapshot`: nothing at or below `log_id` stays, and
  -- the floor does not move back.
  unfoldable pub compact : raft.LogId → KafStorageState raft → KafStorageState raft
  compact log_id state = record state {
    log = BTreeMap.retain (λ i _. ltb (raft.index log_id) i) state.log;
    last_purged_log_id =
        if option_ltb (index_of raft state.last_purged_log_id) (some (raft.index log_id))
        then some log_id
        else state.last_purged_log_id;
  }

  unfoldable pub purge :
      ℕ → raft.LogId → KafStorageState raft → KafStorageState raft × Result (Unit {0}) String
  unfolding compact
  purge now log_id state = guarded (check_mutation now state) state (compact log_id state)
