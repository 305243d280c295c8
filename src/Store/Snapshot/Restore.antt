-- ===== src/Store/Snapshot/Restore.antt =====
-- A snapshot that is installed gives the snapshot back.
use keep_afloat_d.Prelude.{Bool, true, false, [], ◌≡◌, arith}
use keep_afloat_d.Store.OpenRaft.{OpenRaft}
use keep_afloat_d.Store.State.{KafStorageState, KafSnapshot, FailoverSemantics, legacy, v2}
use keep_afloat_d.Store.Snapshot.{snapshot_of, restore_into}

-- A snapshot holds nothing that the installing node drops for its own `failback`.
abbrev pub IsSettled : {raft : OpenRaft} → FailoverSemantics → Bool → KafSnapshot raft → Type 0
IsSettled legacy true snap = snap.node_failback_blocked ≡ []
IsSettled legacy false snap = Unit
IsSettled v2 true snap = (snap.node_failback_blocked ≡ []) × (snap.node_nopreempt ≡ [])
IsSettled v2 false snap =
    (snap.node_failback_blocked ≡ [])
    × ((snap.node_recovery_pending ≡ []) × (snap.node_recovery_tick ≡ []))

module _ {raft : OpenRaft} where
  -- Where the snapshot is settled for the installing node, its state after the install gives the same snapshot.
  pub snapshot-restore :
      (snap : KafSnapshot raft) (t : KafStorageState raft)
      → IsSettled snap.failover_semantics t.failback snap
      → snapshot_of (restore_into snap t) ≡ snap
  unfolding snapshot_of restore_into
  snapshot-restore snap t h = ground arith
