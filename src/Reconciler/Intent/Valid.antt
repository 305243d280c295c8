-- ===== src/Reconciler/Intent/Valid.antt =====
-- What an intent that remains valid permits (src/vip/reconcile/intent.rs).
use keep_afloat_d.Prelude.{
  ◌≡◌, refl, sym, ap, Bool, true, not, ◌||◌, Option, none, some, equal_iff, arith, unless-eq-true,
  or-eq-false, not-eq-false, ◌∙◌,
}
use keep_afloat_d.BTreeMap
use keep_afloat_d.Addr.{ip_ord}
use keep_afloat_d.VipLogic.Reconcile.{VipAssignment}
use keep_afloat_d.BindPolicy.{BindGates}
use keep_afloat_d.BindPolicy.Bind.{MayBind, should_bind_iff}
use keep_afloat_d.Store.OpenRaft.{OpenRaft}
use keep_afloat_d.Store.State.{KafStorageState}
use keep_afloat_d.Reconciler.Takeover.{tick_of}
use keep_afloat_d.Reconciler.Takeover.Wait.{same_tick_eq}
use keep_afloat_d.Reconciler.Intent.{
  EffectIntent, capture, remains_valid, differs, expected, is_waiting, Assigned-discrete,
  BindGates-discrete, same_flag, previous_of, generation_of,
}

same_flag_lem : (a b : Bool) → a ≡ true → same_flag a b ≡ true → b ≡ true
same_flag_lem a b e h = ground arith

waiting_tick : (w t : Bool) → w ≡ true → (not w || t) ≡ true → t ≡ true
waiting_tick w t e h = ground arith

module _ {raft : OpenRaft} (intent : EffectIntent) (state : KafStorageState raft)
    (gates : BindGates) where
  -- The intent, seen in a later state.
  pub record IsCurrent : Type 0 where
    pub permitted :
        intent.bind_policy ≡ true
        → MayBind gates intent.node_id
            (BTreeMap.get state.vip_assignments intent.vip)
            state.node_probe_ticks
            state.latest_probe_tick
            state.stale_missed_probes
            intent.activated_generation
    pub generation :
        generation_of (BTreeMap.get state.vip_assignments intent.vip)
        ≡ generation_of intent.assignment
    pub silent :
        is_waiting intent intent.assignment ≡ true
        → intent.previous_tick
          ≡ tick_of
              (previous_of (BTreeMap.get state.vip_assignments intent.vip))
              state.node_probe_ticks

  expected-generation :
      (o c : Option VipAssignment) → generation_of (expected intent o c) ≡ generation_of o
  expected-generation none c = refl
  expected-generation (some a) c = ground arith

  -- An intent that remains valid in a later state under some gates: where it was a permission to bind, it
  -- is permitted by the bind policy in that state and under those gates; the generation is the same; and
  -- while it waits for its predecessor, the predecessor has not reported again.
  pub remains_valid-IsCurrent : remains_valid intent state gates ≡ true → IsCurrent
  unfolding remains_valid capture
  remains_valid-IsCurrent h =
      let current = capture intent.vip intent.node_id gates state intent.activated_generation in
      let (same, quiet) = unless-eq-true (differs intent gates current) _ h in
      let (rest, e3) = or-eq-false _ _ same in
      let (e1, e2) = or-eq-false _ _ rest in
      let assigned =
        (equal_iff Assigned-discrete (expected intent intent.assignment current.assignment)
            current.assignment).0
          (not-eq-false _ e1) in
      let open_gates = (equal_iff BindGates-discrete intent.gates gates).0 (not-eq-false _ e2) in
      record {
        permitted = λ b.
            (should_bind_iff gates intent.node_id current.assignment state.node_probe_ticks
                state.latest_probe_tick state.stale_missed_probes intent.activated_generation).0
              (same_flag_lem intent.bind_policy current.bind_policy b (not-eq-false _ e3));
        generation =
            ap generation_of (sym assigned)
            ∙ expected-generation intent.assignment current.assignment;
        silent = λ w.
            same_tick_eq intent.previous_tick current.previous_tick
              (waiting_tick (is_waiting intent intent.assignment) _ w quiet);
      }
