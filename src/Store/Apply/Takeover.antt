-- ===== src/Store/Apply/Takeover.antt =====
-- What a committed change of the holder means for the bind policy (src/raft/store/state_machine.rs,
-- src/raft/store/vip_logic.rs, src/bind_policy.rs).
use keep_afloat_d.Prelude.{
  ℕ, ◌≤◌, ◌<◌, ◌≡◌, ◌≢◌, refl, ◌∙◌, ap, subst, sym, Bool, true, false, Option, none, some, List,
  arith, u64_max, String, if◌then◌else◌, inl, inr, is_some, Bool-cases,
}
use keep_afloat_d.BTreeMap
use keep_afloat_d.BTreeMap.{BTreeMap}
use keep_afloat_d.BTreeSet
use keep_afloat_d.BTreeSet.Distinct.{IsDistinct}
use keep_afloat_d.Addr.{IpAddr, ip_ord, VipAddr}
use keep_afloat_d.VipLogic.Eligibility.{is_node_probe_fresh}
use keep_afloat_d.VipLogic.Reconcile.{VipAssignment}
use keep_afloat_d.VipLogic.Reconcile.Slots.{Slot}
use keep_afloat_d.VipLogic.Reconcile.Fencing.{IsFenced, Matches, TakesOver, slot_step-TakesOver}
use keep_afloat_d.Store.OpenRaft.{OpenRaft}
use keep_afloat_d.Store.State.{
  KafStorageState, is_v2, EntryPayload, Entry, blank, normal, membership, health_progress,
  admission_genesis, admission_membership, health_update, vip_released, cluster_formed,
  enable_failover_semantics_v2, enable_config_identity_v1, new,
}
use keep_afloat_d.Store.Recompute.{recompute, addresses, fences, new_holders}
use keep_afloat_d.Store.Machine.{update_v2_failback_tracking}
use keep_afloat_d.Store.Machine.Frame.{Vips, vips_of, followed-Agree}
use keep_afloat_d.Store.Apply.{dispatch, apply_one, apply_all}
use keep_afloat_d.Store.Apply.Steady.{
  steady, apply_membership-IsSteady, apply_health-IsSteady, apply_admission_membership-IsSteady,
}
use keep_afloat_d.Store.Apply.Facts.{apply_progress-IsSteady, either-IsSteady}
use keep_afloat_d.Store.Apply.Fencing.{
  Follows, apply_genesis-vips, form_cluster-vips, activate_v2-vips, slot_of, apply_all-Follows,
  dispatch-Follows, fences-slot,
}
use keep_afloat_d.Store.Apply.History.{new-IsSound}
use keep_afloat_d.BindPolicy.{BindGates, should_bind_or_keep_vip}
use keep_afloat_d.BindPolicy.Bind.{NotFresh, should_bind_iff}

-- The generation that a process has activated last, if any, is at most this one.
abbrev pub ActivatedBy : ℕ → Option ℕ → Type 0
ActivatedBy generation none = Unit
ActivatedBy generation (some g) = g ≤ generation

-- What the bind policy makes of it: the binder is the new holder, in a later probe round, and the holder
-- before has missed its probes.
pub record IsFencedOff (p tick n : ℕ) (a : VipAssignment) (ticks : BTreeMap ℕ ℕ) (latest stale : ℕ)
    : Type 0 where
  pub holder : n ≡ a.holder
  pub later : tick < latest
  pub silent : is_node_probe_fresh p ticks latest stale ≡ false

TakesOver-IsFencedOff :
    (p tick generation : ℕ) (a : VipAssignment) (gates : BindGates) (n : ℕ) (ticks : BTreeMap ℕ ℕ)
    (latest stale : ℕ) (known : Option ℕ)
    → TakesOver p tick generation a
    → ActivatedBy generation known
    → should_bind_or_keep_vip gates n (some a) ticks latest stale known ≡ true
    → IsFencedOff p tick n a ticks latest stale
TakesOver-IsFencedOff p tick generation a gates n ticks latest stale known t k h =
    let b = (should_bind_iff gates n (some a) ticks latest stale known).0 h in
    let prev = t.previous in
    record {
      holder = sym b.holder;
      later = omega (arith, t.active, b.active);
      silent = elim b.safe [
        | inl activated ↦
            let known_by = subst (ActivatedBy generation) activated k in
            absurd (omega (arith, known_by, t.next))
        | inr (inl released) ↦ ground (arith, t.unreleased)
        | inr (inr missed) ↦ subst (λ o. NotFresh o ticks latest stale) t.previous missed
      ];
    }

-- Two slots that differ in no more than the assignment.
record SameHistory (v u : Vips) : Type 0 where
  generation : u.vip_generation ≡ v.vip_generation
  last_holder : u.vip_last_holder ≡ v.vip_last_holder

equal-SameHistory : (v u : Vips) → u ≡ v → SameHistory v u
equal-SameHistory v u e = record {
  generation = ap (λ (x : Vips). x.vip_generation) e;
  last_holder = ap (λ (x : Vips). x.vip_last_holder) e;
}

module _ {raft : OpenRaft} where
  -- Only the recomputation changes the generations and the last holders.
  dispatch-SameHistory :
      (e : EntryPayload raft) (l : raft.LogId) (s : KafStorageState raft)
      → SameHistory (vips_of s) (vips_of (dispatch e l s).state)
  unfolding dispatch
  dispatch-SameHistory blank l s = record { generation = refl; last_holder = refl }
  dispatch-SameHistory (membership m) l s =
      equal-SameHistory (vips_of s) _ (apply_membership-IsSteady m l s).vips
  dispatch-SameHistory (normal (admission_membership command)) l s =
      equal-SameHistory (vips_of s) _ (apply_admission_membership-IsSteady command l s).vips
  dispatch-SameHistory (normal (admission_genesis genesis)) l s =
      equal-SameHistory (vips_of s) _ (apply_genesis-vips genesis s)
  dispatch-SameHistory (normal (health_progress p)) l s =
      equal-SameHistory (vips_of s) _ (apply_progress-IsSteady p l s).vips
  dispatch-SameHistory (normal (health_update n healthy)) l s =
      equal-SameHistory (vips_of s) _
        (either-IsSteady s (is_some s.genesis) _ _ (steady s)
          (apply_health-IsSteady n healthy s)).vips
  dispatch-SameHistory (normal (vip_released n vip generation)) l s = record {
    generation = refl;
    last_holder = refl;
  }
  dispatch-SameHistory (normal (cluster_formed cluster_id f enforced)) l s =
      equal-SameHistory (vips_of s) _ (form_cluster-vips cluster_id f enforced s)
  dispatch-SameHistory (normal enable_failover_semantics_v2) l s =
      equal-SameHistory (vips_of s) _ (activate_v2-vips s)
  dispatch-SameHistory (normal enable_config_identity_v1) l s = record {
    generation = refl;
    last_holder = refl;
  }

  -- A recomputation from the state `t` that gives the VIP to another node than its last holder.
  fences-TakesOver :
      (t : KafStorageState raft) (w : IpAddr) (p : ℕ) (a : VipAssignment)
      → IsDistinct (addresses t.vip_list)
      → IsFenced (slot_of w (vips_of t))
      → BTreeMap.get t.vip_last_holder w ≡ some p
      → BTreeMap.get (fences t).assignments w ≡ some a
      → p ≢ a.holder
      → BTreeMap.get_or t.vip_generation w 0 < u64_max
      → t.latest_probe_tick < u64_max
      → TakesOver p t.latest_probe_tick (BTreeMap.get_or t.vip_generation w 0) a
  fences-TakesOver t w p a d fenced last at_w n g small =
      let e = ap (λ (x : Slot). x.assignment) (fences-slot t d w) in
      elim (Bool-cases (BTreeSet.contains (addresses t.vip_list) w)) [
        | inl listed ↦
            let stepped = rw listed at e in
            slot_step-TakesOver (BTreeMap.get (new_holders t) w) t.latest_probe_tick p
              (slot_of w (vips_of t)) a fenced last (sym stepped ∙ at_w) n g small
        | inr absent ↦ let dropped = rw absent at e in absurd (ground (arith, dropped, at_w))
      ]

  recompute_if-TakesOver :
      (b : Bool) (s : KafStorageState raft) (w : IpAddr) (p : ℕ) (a : VipAssignment)
      → IsDistinct (addresses s.vip_list)
      → IsFenced (slot_of w (vips_of s))
      → BTreeMap.get s.vip_last_holder w ≡ some p
      → BTreeMap.get (if b then recompute s else s).vip_assignments w ≡ some a
      → p ≢ a.holder
      → BTreeMap.get_or s.vip_generation w 0 < u64_max
      → (if b then recompute s else s).latest_probe_tick < u64_max
      → TakesOver p
          (if b then recompute s else s).latest_probe_tick
          (BTreeMap.get_or s.vip_generation w 0)
          a
  unfolding recompute
  recompute_if-TakesOver false s w p a d fenced last at_w n g small =
      let m =
        subst (λ o. Matches o (BTreeMap.get s.vip_generation w) (BTreeMap.get s.vip_last_holder w))
          at_w fenced.matching in
      absurd (n (ground (arith, m.1, last)))
  recompute_if-TakesOver true s w p a d fenced last at_w n g small =
      let t : KafStorageState raft =
        if is_v2 s.failover_semantics then update_v2_failback_tracking s else s in
      let same_vips = sym (followed-Agree (is_v2 s.failover_semantics) s).vips in
      let counted = ap (λ (v : Vips). v.vip_generation) same_vips in
      subst (λ c. TakesOver p t.latest_probe_tick (BTreeMap.get_or c w 0) a) (sym counted)
        (fences-TakesOver t w p a
          (subst (λ (v : Vips). IsDistinct (addresses v.vip_list)) same_vips d)
          (subst (λ v. IsFenced (slot_of w v)) same_vips fenced)
          (subst (λ (v : Vips). BTreeMap.get v.vip_last_holder w ≡ some p) same_vips last) at_w n
          (subst (λ (v : Vips). BTreeMap.get_or v.vip_generation w 0 < u64_max) same_vips g) small)

  -- A node starts with a list of VIPs without duplicates, applies a log, and then one more entry. Where the
  -- entry gives a VIP to another node than `p`, which held it last, and neither the generation nor the
  -- probe round has met the end of `u64`: whoever may bind the VIP by that assignment, in any probe rounds
  -- that it sees, without having activated a later generation before, is the new holder, sees a later
  -- round than that of the entry, and `p` has missed its probes in what it sees.
  pub apply_one-IsFencedOff :
      (vip_list : List (VipAddr × String)) (stale : ℕ) (failback : Bool) (delay : ℕ)
      (log : List (Entry raft)) (e : Entry raft) (w : IpAddr) (p : ℕ) (a : VipAssignment)
      (gates : BindGates) (n : ℕ) (ticks : BTreeMap ℕ ℕ) (latest missed : ℕ) (known : Option ℕ)
      → let s : KafStorageState raft = apply_all log (new vip_list stale failback delay) in
        let next = (apply_one e s).0 in
        IsDistinct (addresses vip_list)
        → BTreeMap.get s.vip_last_holder w ≡ some p
        → BTreeMap.get next.vip_assignments w ≡ some a
        → p ≢ a.holder
        → BTreeMap.get_or s.vip_generation w 0 < u64_max
        → next.latest_probe_tick < u64_max
        → ActivatedBy (BTreeMap.get_or s.vip_generation w 0) known
        → should_bind_or_keep_vip gates n (some a) ticks latest missed known ≡ true
        → IsFencedOff p next.latest_probe_tick n a ticks latest missed
  unfolding apply_one
  apply_one-IsFencedOff vip_list stale failback delay log e w p a gates n ticks latest missed known
        distinct last at_w other small round activated h =
      let start : KafStorageState raft = new vip_list stale failback delay in
      let s = apply_all log start in
      let began = apply_all-Follows log start (unfold new in distinct) in
      let sound = began.sound w (new-IsSound raft vip_list stale failback delay w) in
      let logged : KafStorageState raft = record s { last_applied_log = some e.log_id } in
      let d = dispatch e.payload e.log_id logged in
      let f : Follows (vips_of s) (vips_of d.state) = dispatch-Follows e.payload e.log_id logged in
      let history : SameHistory (vips_of s) (vips_of d.state) =
        dispatch-SameHistory e.payload e.log_id logged in
      let listed =
        subst (λ l. IsDistinct (addresses l)) (sym (f.vip_list ∙ began.vip_list))
          (unfold new in distinct) in
      let takes =
        recompute_if-TakesOver d.should_recompute d.state w p a listed (f.sound w sound).fenced
          (ap (λ m. BTreeMap.get m w) history.last_holder ∙ last) at_w other
          (rw history.generation small) round in
      TakesOver-IsFencedOff p (apply_one e s).0.latest_probe_tick
        (BTreeMap.get_or s.vip_generation w 0) a gates n ticks latest missed known
        (subst (λ g. TakesOver p (apply_one e s).0.latest_probe_tick (BTreeMap.get_or g w 0) a)
          history.generation takes)
        activated h
