-- ===== src/Store/Install.antt =====
-- The asynchronous entry points of src/raft/store/state_machine.rs: applying the log under local
-- authority, building a snapshot and installing one. `serde_json` is outside: a snapshot that it
-- cannot decode is `none`.
pub mod Authority
use keep_afloat_d.Prelude.{
  ℕ, Bool, true, false, not, ◌||◌, Option, none, some, List, [], ◌∷◌, ◌++◌, if◌then◌else◌, Result,
  ok, err, String,
}
use keep_afloat_d.Identity.{Genesis, AdmissionSession}
use keep_afloat_d.Store.OpenRaft.{OpenRaft}
use keep_afloat_d.Store.State.{KafStorageState, KafSnapshot, KafResponse, Entry}
use keep_afloat_d.Store.Membership.{same_genesis}
use keep_afloat_d.Store.Snapshot.{restore_into, snapshot_at}
use keep_afloat_d.Store.Log.{check_mutation, guarded, compact}
use keep_afloat_d.Store.Apply.{apply_one}

-- `is_some_and(|genesis| found != Some(genesis))`
abbrev pub excludes : Option Genesis → Option Genesis → Bool
excludes none found = false
excludes (some genesis) found = not (same_genesis found genesis)

abbrev pub session_genesis : Option AdmissionSession → Option Genesis
session_genesis none = none
session_genesis (some session) = some session.context.genesis

module _ {raft : OpenRaft} where
  -- The loop of `apply`: each entry comes with the time of its check. The responses are those sent.
  unfoldable pub apply :
      List (ℕ × Entry raft)
      → KafStorageState raft
      → KafStorageState raft × List KafResponse × Result (Unit {0}) String
  unfolding check_mutation apply_one
  apply [] state = (state, [], ok tt)
  apply ((now, entry) ∷ entries) state = elim (check_mutation now state) [
    | err e ↦ (state, [], err e)
    | ok _ ↦
        let (next, response) = apply_one entry state in
        let (last, responses, result) = apply entries next in (last, response ∷ responses, result)
  ]

  unfoldable pub build_snapshot : KafStorageState raft → Result (KafSnapshot raft) String
  unfolding snapshot_at
  build_snapshot state = elim state.last_applied_log [
    | none ↦ err "no applied logs"
    | some last_applied ↦ ok (snapshot_at last_applied state)
  ]

  -- The end of `install_snapshot`, by the last entry that the snapshot covers.
  abbrev pub compact_to : Option raft.LogId → KafStorageState raft → KafStorageState raft
  compact_to none state = state
  compact_to (some last) state = compact last state

  unfoldable pub adopt : KafSnapshot raft → KafStorageState raft → KafStorageState raft
  unfolding restore_into compact
  adopt snap state = record (compact_to snap.last_applied (restore_into snap state)) {
    current_snapshot = some snap;
  }

  unfoldable pub install_snapshot :
      ℕ
      → Option (KafSnapshot raft)
      → KafStorageState raft
      → KafStorageState raft × Result (Unit {0}) String
  unfolding adopt
  install_snapshot now none state = (state, err "install_snapshot")
  install_snapshot now (some snap) state =
      if excludes state.genesis snap.genesis
        || excludes (session_genesis state.admission) snap.genesis
      then (state, err "snapshot admission genesis mismatch")
      else guarded (check_mutation now state) state (adopt snap state)
