-- ===== src/Reconciler/Exclusive.antt =====
-- The parts together: the accepted configuration, the log that the nodes apply, and the intents that
-- they capture from their states (src/config/vip_validation.rs, src/raft/store/state_machine.rs,
-- src/vip/reconcile/intent.rs, src/bind_policy.rs).
use keep_afloat_d.Prelude.{
  ℕ, ◌<◌, ◌≡◌, sym, subst, ◌∙◌, true, some, Option, List, Bool, ok, u64_max,
}
use keep_afloat_d.BTreeMap
use keep_afloat_d.Addr.{IpAddr, ip_ord}
use keep_afloat_d.VipLogic.Reconcile.{VipAssignment}
use keep_afloat_d.BindPolicy.{BindGates}
use keep_afloat_d.BindPolicy.Bind.{MayBind, should_bind_iff}
use keep_afloat_d.Config.Vips.{VipConfig, Text, normalize_vips, sorted_vips}
use keep_afloat_d.Config.Vips.Normal.{normalize_vips-IsNormal}
use keep_afloat_d.Store.OpenRaft.{OpenRaft}
use keep_afloat_d.Store.State.{KafStorageState, Entry, new}
use keep_afloat_d.Store.Apply.{apply_all}
use keep_afloat_d.Store.Apply.History.{generation_names_holder}
use keep_afloat_d.Reconciler.Intent.{capture}

module _ {raft : OpenRaft} where
  capture-holder :
      (vip : IpAddr) (n : ℕ) (gates : BindGates) (state : KafStorageState raft) (known : Option ℕ)
      (a : VipAssignment)
      → BTreeMap.get state.vip_assignments vip ≡ some a
      → (capture vip n gates state known).bind_policy ≡ true
      → a.holder ≡ n
  unfolding capture
  capture-holder vip n gates state known a e h =
      let may =
        (should_bind_iff gates n (BTreeMap.get state.vip_assignments vip) state.node_probe_ticks
            state.latest_probe_tick state.stale_missed_probes known).0
          h in
      let bound =
        subst
          (λ o.
            MayBind gates n o state.node_probe_ticks state.latest_probe_tick
              state.stale_missed_probes known)
          e may in
      bound.holder

  -- Two nodes start with the list of VIPs that the configuration leaves; one applies a log, the other
  -- the same log and further entries. Where the intents that both capture permit binding one VIP, in the
  -- same generation, which has not met the end of `u64`, they are the same node, whatever their gates and
  -- whatever they have activated before.
  pub capture-one_holder :
      (text : Text) (given out : List VipConfig) (stale : ℕ) (failback : Bool) (delay : ℕ)
      (log further : List (Entry raft)) (vip : IpAddr) (n m : ℕ) (here there : BindGates)
      (known_here known_there : Option ℕ) (a b : VipAssignment)
      → let s = apply_all log (new (sorted_vips text out) stale failback delay) in
        normalize_vips text given ≡ ok out
        → (capture vip n here s known_here).assignment ≡ some a
        → (capture vip m there (apply_all further s) known_there).assignment ≡ some b
        → a.generation ≡ b.generation
        → a.generation < u64_max
        → (capture vip n here s known_here).bind_policy ≡ true
        → (capture vip m there (apply_all further s) known_there).bind_policy ≡ true
        → n ≡ m
  unfolding capture
  capture-one_holder text given out stale failback delay log further vip n m here there known_here
        known_there a b accepted ea eb g small hn hm =
      let s : KafStorageState raft =
        apply_all log (new (sorted_vips text out) stale failback delay) in
      let listed = (normalize_vips-IsNormal text given out accepted).distinct in
      let same =
        generation_names_holder (sorted_vips text out) stale failback delay log further vip a b
          listed ea eb g small in
      sym (capture-holder vip n here s known_here a ea hn)
      ∙ same
      ∙ capture-holder vip m there (apply_all further s) known_there b eb hm
