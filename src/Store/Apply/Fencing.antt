-- ===== src/Store/Apply/Fencing.antt =====
-- The fences of the VIPs across the log: whatever is committed, a generation names one holder.
use keep_afloat_d.Prelude.{
  ℕ, Bool, true, false, Option, none, some, List, [], ◌∷◌, ◌≡◌, refl, ◌∙◌, ap, subst, sym,
  if◌then◌else◌, Bool-cases, inl, inr, arith, is_some, same, ◌&&◌, ◌==◌, nat_ord,
}
use keep_afloat_d.BTreeMap
use keep_afloat_d.BTreeMap.{BTreeMap}
use keep_afloat_d.BTreeMap.Laws.{get-insert}
use keep_afloat_d.BTreeSet
use keep_afloat_d.BTreeSet.Distinct.{IsDistinct}
use keep_afloat_d.Addr.{IpAddr, ip_ord}
use keep_afloat_d.Identity.{Genesis}
use keep_afloat_d.VipLogic.Reconcile.{VipAssignment}
use keep_afloat_d.VipLogic.Reconcile.Slots.{Slot, slot, slot_step, unlisted, before, reconcile-slot}
use keep_afloat_d.VipLogic.Reconcile.Fencing.{
  IsFenced, Matches, InRange, Later, Later-refl, Later-trans, slot_step-IsFenced, unlisted-IsFenced,
  slot_step-Later,
}
use keep_afloat_d.Store.OpenRaft.{OpenRaft}
use keep_afloat_d.Store.State.{
  KafStorageState, FailoverSemantics, is_v2, EntryPayload, Entry, blank, normal, membership,
  health_progress, admission_genesis, admission_membership, health_update, vip_released,
  cluster_formed, enable_failover_semantics_v2, enable_config_identity_v1,
}
use keep_afloat_d.Store.Machine.Frame.{Vips, vips_of, followed-Agree}
use keep_afloat_d.Store.Machine.{activate_v2, update_v2_failback_tracking}
use keep_afloat_d.Store.Recompute.{recompute, addresses, fences, new_holders}
use keep_afloat_d.Store.Apply.{
  first_genesis, apply_genesis, form_cluster, dispatch, apply_one, apply_all, release, is_previous,
}
use keep_afloat_d.Store.Apply.Steady.{
  steady, apply_membership-IsSteady, apply_health-IsSteady, apply_admission_membership-IsSteady,
}
use keep_afloat_d.Store.Apply.Facts.{apply_progress-IsSteady, either-IsSteady}

abbrev pub slot_of : IpAddr → Vips → Slot
slot_of w v = slot w v.vip_assignments v.vip_generation v.vip_last_holder

pub record IsSound (s : Slot) : Type 0 where
  pub fenced : IsFenced s
  pub in_range : InRange s

-- `u` comes from `v` by committed entries.
pub record Follows (v u : Vips) : Type 0 where
  pub vip_list : u.vip_list ≡ v.vip_list
  pub sound : (w : IpAddr) → IsSound (slot_of w v) → IsSound (slot_of w u)
  pub later : (w : IpAddr) → IsSound (slot_of w v) → Later (slot_of w v) (slot_of w u)

Follows-refl : (v : Vips) → Follows v v
Follows-refl v = record {
  vip_list = refl;
  sound = λ w s. s;
  later = λ w s. Later-refl (slot_of w v);
}

Follows-trans : (v u t : Vips) → Follows v u → Follows u t → Follows v t
Follows-trans v u t p q = record {
  vip_list = q.vip_list ∙ p.vip_list;
  sound = λ w s. q.sound w (p.sound w s);
  later = λ w s. Later-trans _ _ _ (p.later w s) (q.later w (p.sound w s));
}

equal-Follows : (v u : Vips) → u ≡ v → Follows v u
equal-Follows v u e = subst (Follows v) (sym e) (Follows-refl v)

slot_step-IsSound :
    (next : Option ℕ) (tick : ℕ) (s : Slot) → IsSound s → IsSound (slot_step next tick s)
slot_step-IsSound none tick s v = record {
  fenced = slot_step-IsFenced none tick s v.fenced;
  in_range = v.in_range;
}
slot_step-IsSound (some h) tick s v = record {
  fenced = slot_step-IsFenced (some h) tick s v.fenced;
  in_range = ground (arith, v.in_range);
}

-- What an acknowledged release changes.
release-IsSound :
    (found : Option VipAssignment) (n : ℕ) (vip : IpAddr) (g : ℕ) (v : Vips) (w : IpAddr)
    → BTreeMap.get v.vip_assignments vip ≡ found
    → IsSound (slot_of w v)
    → IsSound (slot_of w (record v { vip_assignments = release found n vip g v.vip_assignments }))
release-IsSound none n vip g v w e s = s
release-IsSound (some a) n vip g v w e s =
    elim (Bool-cases (a.generation == g && is_previous a.previous_holder n)) [
      | inr refused ↦ rw refused s
      | inl granted ↦ rw granted (elim (Bool-cases (same w vip)) [
        | inl here ↦
            let at_vip : w ≡ vip = ip_ord.eq_of_cmp w vip (ground arith) in
            let new_entry : BTreeMap.get
                  (BTreeMap.insert v.vip_assignments vip
                    (record a { previous_holder_released = true }))
                  w
                ≡ some (record a { previous_holder_released = true }) =
              ground (
                arith,
                get-insert v.vip_assignments vip w (record a { previous_holder_released = true }),
                here,
              ) in
            let old =
              subst
                (λ o.
                  Matches o (BTreeMap.get v.vip_generation w) (BTreeMap.get v.vip_last_holder w))
                (ap (BTreeMap.get v.vip_assignments) at_vip ∙ e) s.fenced.matching in
            rw new_entry (record {
              fenced = record { matching = old; counted = s.fenced.counted };
              in_range = s.in_range;
            })
        | inr away ↦
            let kept : BTreeMap.get
                  (BTreeMap.insert v.vip_assignments vip
                    (record a { previous_holder_released = true }))
                  w
                ≡ BTreeMap.get v.vip_assignments w =
              ground (
                arith,
                get-insert v.vip_assignments vip w (record a { previous_holder_released = true }),
                away,
              ) in
            rw kept s
      ])
    ]

abbrev pub either_slot : Bool → Slot → Slot → Slot
either_slot b x y = if b then x else y

either-IsSound : (b : Bool) (x y : Slot) → IsSound x → IsSound y → IsSound (either_slot b x y)
either-IsSound true x y p q = p
either-IsSound false x y p q = q

either-Later :
    (s : Slot) (b : Bool) (x y : Slot) → Later s x → Later s y → Later s (either_slot b x y)
either-Later s true x y p q = p
either-Later s false x y p q = q

module _ {raft : OpenRaft} where
  pub apply_genesis-vips :
      (g : Genesis) (s : KafStorageState raft) → vips_of (apply_genesis g s).state ≡ vips_of s
  unfolding apply_genesis first_genesis activate_v2
  apply_genesis-vips g s = ground arith

  pub form_cluster-vips :
      (id : ℕ) (f : FailoverSemantics) (enforced : Bool) (s : KafStorageState raft)
      → vips_of (form_cluster id f enforced s).state ≡ vips_of s
  unfolding activate_v2
  form_cluster-vips id f enforced s = ground arith

  pub activate_v2-vips : (s : KafStorageState raft) → vips_of (activate_v2 s) ≡ vips_of s
  unfolding activate_v2
  activate_v2-vips s = ground arith

  pub dispatch-Follows :
      (e : EntryPayload raft) (l : raft.LogId) (s : KafStorageState raft)
      → Follows (vips_of s) (vips_of (dispatch e l s).state)
  unfolding dispatch
  dispatch-Follows blank l s = Follows-refl (vips_of s)
  dispatch-Follows (membership m) l s =
      equal-Follows (vips_of s) _ (apply_membership-IsSteady m l s).vips
  dispatch-Follows (normal (admission_membership command)) l s =
      equal-Follows (vips_of s) _ (apply_admission_membership-IsSteady command l s).vips
  dispatch-Follows (normal (admission_genesis genesis)) l s =
      equal-Follows (vips_of s) _ (apply_genesis-vips genesis s)
  dispatch-Follows (normal (health_progress p)) l s =
      equal-Follows (vips_of s) _ (apply_progress-IsSteady p l s).vips
  dispatch-Follows (normal (health_update n healthy)) l s =
      equal-Follows (vips_of s) _
        (either-IsSteady s (is_some s.genesis) _ _ (steady s)
          (apply_health-IsSteady n healthy s)).vips
  dispatch-Follows (normal (vip_released n vip generation)) l s = record {
    vip_list = refl;
    sound = λ w v.
        release-IsSound (BTreeMap.get s.vip_assignments vip) n vip generation (vips_of s) w refl v;
    later = λ w v. record { grows = omega arith; same_holder = λ e h. refl };
  }
  dispatch-Follows (normal (cluster_formed cluster_id f enforced)) l s =
      equal-Follows (vips_of s) _ (form_cluster-vips cluster_id f enforced s)
  dispatch-Follows (normal enable_failover_semantics_v2) l s =
      equal-Follows (vips_of s) _ (activate_v2-vips s)
  dispatch-Follows (normal enable_config_identity_v1) l s = Follows-refl (vips_of s)

  pub fences-slot :
      (t : KafStorageState raft)
      → IsDistinct (addresses t.vip_list)
      → (w : IpAddr)
      → before w (fences t)
        ≡ either_slot
            (BTreeSet.contains (addresses t.vip_list) w)
            (slot_step (BTreeMap.get (new_holders t) w) t.latest_probe_tick (slot_of w (vips_of t)))
            (unlisted (slot_of w (vips_of t)))
  unfolding fences
  fences-slot t d w =
      reconcile-slot (new_holders t) t.latest_probe_tick (addresses t.vip_list) t.vip_assignments
        t.vip_generation t.vip_last_holder d w

  -- What the recomputation writes over the state `t` that it starts from.
  abbrev reconciled : KafStorageState raft → Vips
  reconciled t = record (vips_of t) {
    vip_assignments = (fences t).assignments;
    vip_generation = (fences t).generation;
    vip_last_holder = (fences t).last_holder;
  }

  reconciled-Follows :
      (t : KafStorageState raft)
      → IsDistinct (addresses t.vip_list)
      → Follows (vips_of t) (reconciled t)
  reconciled-Follows t d = record {
    vip_list = refl;
    sound = λ w s. subst IsSound (sym (fences-slot t d w)) (
        either-IsSound (BTreeSet.contains (addresses t.vip_list) w) _ _
          (slot_step-IsSound (BTreeMap.get (new_holders t) w) t.latest_probe_tick _ s)
          (record { fenced = unlisted-IsFenced _ s.fenced; in_range = s.in_range }));
    later = λ w s. subst (Later (slot_of w (vips_of t))) (sym (fences-slot t d w)) (
        either-Later (slot_of w (vips_of t)) (BTreeSet.contains (addresses t.vip_list) w) _ _
          (slot_step-Later (BTreeMap.get (new_holders t) w) t.latest_probe_tick _ s.in_range
            s.fenced)
          (record { grows = omega arith; same_holder = λ e h. refl }));
  }

  recompute-Follows :
      (s : KafStorageState raft)
      → IsDistinct (addresses s.vip_list)
      → Follows (vips_of s) (vips_of (recompute s))
  unfolding recompute
  recompute-Follows s d =
      let t : KafStorageState raft =
        if is_v2 s.failover_semantics then update_v2_failback_tracking s else s in
      let same_vips = (followed-Agree (is_v2 s.failover_semantics) s).vips in
      Follows-trans (vips_of s) (vips_of t) (reconciled t)
        (equal-Follows (vips_of s) (vips_of t) same_vips)
        (reconciled-Follows t
          (subst (λ (v : Vips). IsDistinct (addresses v.vip_list)) (sym same_vips) d))

  recompute_if-Follows :
      (b : Bool) (s : KafStorageState raft)
      → IsDistinct (addresses s.vip_list)
      → Follows (vips_of s) (vips_of (if b then recompute s else s))
  recompute_if-Follows true s d = recompute-Follows s d
  recompute_if-Follows false s d = Follows-refl (vips_of s)

  apply_one-Follows :
      (e : Entry raft) (s : KafStorageState raft)
      → IsDistinct (addresses s.vip_list)
      → Follows (vips_of s) (vips_of (apply_one e s).0)
  unfolding apply_one
  apply_one-Follows e s distinct =
      let logged : KafStorageState raft = record s { last_applied_log = some e.log_id } in
      let d = dispatch e.payload e.log_id logged in
      let f : Follows (vips_of s) (vips_of d.state) = dispatch-Follows e.payload e.log_id logged in
      Follows-trans (vips_of s) (vips_of d.state) _ f (
        recompute_if-Follows d.should_recompute d.state
          (subst (λ vs. IsDistinct (addresses vs)) (sym f.vip_list) distinct))

  -- Over any part of the log, from a state whose list of VIPs has no duplicates: the list stays, every
  -- sound slot stays sound, and from a sound slot the generation does not fall and, short of the end of
  -- `u64`, does not change its holder.
  pub apply_all-Follows :
      (log : List (Entry raft)) (s : KafStorageState raft)
      → IsDistinct (addresses s.vip_list)
      → Follows (vips_of s) (vips_of (apply_all log s))
  unfolding apply_all
  apply_all-Follows [] s d = Follows-refl (vips_of s)
  apply_all-Follows (e ∷ log) s d =
      let f = apply_one-Follows e s d in
      Follows-trans (vips_of s) _ _ f (
        apply_all-Follows log (apply_one e s).0
          (subst (λ vs. IsDistinct (addresses vs)) (sym f.vip_list) d))
