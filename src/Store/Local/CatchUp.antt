-- ===== src/Store/Local/CatchUp.antt =====
-- A node that catches up by a snapshot against one that replays the log (src/raft/store/state.rs,
-- src/raft/store/state_machine.rs).
use keep_afloat_d.Prelude.{ℕ, ◌≡◌, refl, ◌∙◌, ap, Bool, List, String, arith}
use keep_afloat_d.Addr.{VipAddr}
use keep_afloat_d.Store.OpenRaft.{OpenRaft}
use keep_afloat_d.Store.State.{KafStorageState, Entry, new}
use keep_afloat_d.Store.Snapshot.{snapshot_of, restore_into}
use keep_afloat_d.Store.Snapshot.Restore.{IsSettled}
use keep_afloat_d.Store.Apply.{apply_all}
use keep_afloat_d.Store.Local.{Local, with_local}
use keep_afloat_d.Store.Local.Apply.{apply_all-local}
use keep_afloat_d.Store.Local.Tidy.{IsTidy, new-IsTidy}
use keep_afloat_d.Store.Local.Tidy.Apply.{apply_all-IsTidy}

module _ {raft : OpenRaft} where
  abbrev local_of : KafStorageState raft → Local raft
  local_of s = record {
    admission = s.admission;
    admission_required = s.admission_required;
    last_purged_log_id = s.last_purged_log_id;
    log = s.log;
    vote = s.vote;
    committed = s.committed;
    current_snapshot = s.current_snapshot;
  }

  -- Two nodes have the same configuration.
  pub record SameConfig (s t : KafStorageState raft) : Type 0 where
    pub vip_list : t.vip_list ≡ s.vip_list
    pub stale_missed_probes : t.stale_missed_probes ≡ s.stale_missed_probes
    pub failback : t.failback ≡ s.failback
    pub failback_delay_ticks : t.failback_delay_ticks ≡ s.failback_delay_ticks

  restored :
      (s t : KafStorageState raft)
      → SameConfig s t
      → IsSettled s.failover_semantics s.failback (snapshot_of s)
      → restore_into (snapshot_of s) t ≡ with_local (local_of t) s
  unfolding restore_into snapshot_of
  restored s t c h =
      ground (arith, c.vip_list, c.stale_missed_probes, c.failback, c.failback_delay_ticks)

  Tidy-IsSettled :
      (s : KafStorageState raft)
      → IsTidy s
      → IsSettled s.failover_semantics s.failback (snapshot_of s)
  unfolding snapshot_of
  Tidy-IsSettled s t = ground (arith, t.blocked, t.nopreempt, t.pending, t.ticks)

  local-snapshot_of :
      (x : Local raft) (s : KafStorageState raft) → snapshot_of (with_local x s) ≡ snapshot_of s
  unfolding snapshot_of
  local-snapshot_of x s = refl

  -- One node applies a log from its start; its snapshot is installed on a node with the same
  -- configuration, whatever state that node was in. Then any further log leads both to the same
  -- replicated state: everything that a snapshot holds is the same on both.
  pub restore_into-apply_all :
      (vip_list : List (VipAddr × String)) (stale : ℕ) (failback : Bool) (delay : ℕ)
      (log further : List (Entry raft)) (t : KafStorageState raft)
      → let s : KafStorageState raft = apply_all log (new vip_list stale failback delay) in
        SameConfig s t
        → snapshot_of (apply_all further (restore_into (snapshot_of s) t))
          ≡ snapshot_of (apply_all further s)
  restore_into-apply_all vip_list stale failback delay log further t c =
      let start : KafStorageState raft = new vip_list stale failback delay in
      let s = apply_all log start in
      let tidy = apply_all-IsTidy log start (new-IsTidy vip_list stale failback delay) in
      let x = local_of t in
      ap (λ u. snapshot_of (apply_all further u)) (restored s t c (Tidy-IsSettled s tidy))
      ∙ ap snapshot_of (apply_all-local x further s)
      ∙ local-snapshot_of x (apply_all further s)
