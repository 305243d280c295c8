-- ===== src/BindPolicy/Bind.antt =====
-- What a bind requires, and that one assignment has one binder.
use keep_afloat_d.Prelude.{
  ℕ, Bool, true, false, Option, none, some, List, [], ◌∷◌, ◌≡◌, ◌⊎◌, ◌↔◌, refl, ◌≤◌, retain, length,
  nat_ord, arith, Option-cases, Bool-cases, inl, inr, subst, sym,
}
use keep_afloat_d.BTreeMap
use keep_afloat_d.BTreeMap.{BTreeMap}
use keep_afloat_d.BTreeSet
use keep_afloat_d.BTreeSet.Distinct.{IsDistinct}
use keep_afloat_d.Addr.{IpAddr, ip_ord}
use keep_afloat_d.VipLogic.Eligibility.{is_node_probe_fresh}
use keep_afloat_d.VipLogic.Reconcile.{VipAssignment}
use keep_afloat_d.BindPolicy.{
  BindGates, all_open, is_fence_lifted, should_bind_or_keep_vip, should_bind_vip, reported,
  binder_count_for_vip,
}

-- There is no previous holder, or it has missed its probe rounds.
abbrev pub NotFresh : Option ℕ → BTreeMap ℕ ℕ → ℕ → ℕ → Type 0
NotFresh none node_probe_ticks latest stale = Unit
NotFresh (some p) node_probe_ticks latest stale =
    is_node_probe_fresh p node_probe_ticks latest stale ≡ false

-- All that a bind rests on: the gates, the committed assignment, its tick, and one of: this process
-- activated this generation before, the previous holder released it, the previous holder is not fresh.
pub record Permitted (gates : BindGates) (node_id : ℕ) (a : VipAssignment)
    (node_probe_ticks : BTreeMap ℕ ℕ) (latest stale : ℕ) (activated_generation : Option ℕ)
    : Type 0 where
  pub leader : gates.has_leader ≡ true
  pub healthy : gates.local_healthy ≡ true
  pub fresh : gates.consensus_fresh ≡ true
  pub holder : a.holder ≡ node_id
  pub active : a.activation_tick ≤ latest
  pub safe :
      (activated_generation ≡ some a.generation)
      ⊎ ((a.previous_holder_released ≡ true)
          ⊎ NotFresh a.previous_holder node_probe_ticks latest stale)

abbrev pub MayBind : BindGates → ℕ → Option VipAssignment → BTreeMap ℕ ℕ → ℕ → ℕ → Option ℕ → Type 0
MayBind gates n none ticks latest stale known = ⊥
MayBind gates n (some a) ticks latest stale known = Permitted gates n a ticks latest stale known

module _ (gates : BindGates) (node_id : ℕ) (node_probe_ticks : BTreeMap ℕ ℕ) (latest stale : ℕ)
    (activated_generation : Option ℕ) where
  bound-Permitted :
      (a : VipAssignment)
      → should_bind_or_keep_vip gates node_id
          (some a)
          node_probe_ticks
          latest
          stale
          activated_generation
        ≡ true
      → Permitted gates node_id a node_probe_ticks latest stale activated_generation
  unfolding should_bind_or_keep_vip all_open is_fence_lifted
  bound-Permitted a h = record {
    leader = ground arith;
    healthy = ground arith;
    fresh = ground arith;
    holder = ground arith;
    active = ground arith;
    safe = ground arith;
  }

  Permitted-bound :
      (a : VipAssignment)
      → Permitted gates node_id a node_probe_ticks latest stale activated_generation
      → should_bind_or_keep_vip gates node_id
          (some a)
          node_probe_ticks
          latest
          stale
          activated_generation
        ≡ true
  unfolding should_bind_or_keep_vip all_open is_fence_lifted
  Permitted-bound a p = ground arith

-- A node binds an assigned VIP, or keeps it, just when all that `Permitted` lists holds, and a VIP that is
-- not assigned it does not bind.
pub should_bind_iff :
    (gates : BindGates) (node_id : ℕ) (assignment : Option VipAssignment)
    (node_probe_ticks : BTreeMap ℕ ℕ) (latest stale : ℕ) (activated_generation : Option ℕ)
    → (should_bind_or_keep_vip gates node_id assignment node_probe_ticks latest stale
          activated_generation
        ≡ true)
      ↔ MayBind gates node_id assignment node_probe_ticks latest stale activated_generation
unfolding should_bind_or_keep_vip
should_bind_iff gates n none ticks latest stale known = (λ h. absurd (ground arith), λ h. absurd h)
should_bind_iff gates n (some a) ticks latest stale known = (
  bound-Permitted gates n ticks latest stale known a,
  Permitted-bound gates n ticks latest stale known a,
)

module _ (has_leader : Bool) (vip : IpAddr) (assignments : BTreeMap IpAddr VipAssignment)
    (local_healthy consensus_fresh : BTreeMap ℕ Bool) (node_probe_ticks : BTreeMap ℕ ℕ)
    (latest stale : ℕ) where
  abbrev bound : ℕ → Bool
  bound n =
      should_bind_vip has_leader (reported local_healthy n) (reported consensus_fresh n) n
        (BTreeMap.get assignments vip) node_probe_ticks latest stale

  -- Whoever binds is the holder.
  bound-holder :
      (a : VipAssignment)
      → BTreeMap.get assignments vip ≡ some a
      → (n : ℕ) → bound n ≡ true
      → a.holder ≡ n
  unfolding should_bind_vip should_bind_or_keep_vip all_open
  bound-holder a e n = rw e (λ h. ground arith)

  bound-unassigned : BTreeMap.get assignments vip ≡ none → (n : ℕ) → bound n ≡ false
  unfolding should_bind_vip should_bind_or_keep_vip
  bound-unassigned e n = rw e refl

retain_none : (p : ℕ → Bool) (xs : List ℕ) → ((n : ℕ) → p n ≡ false) → length (retain p xs) ≡ 0
retain_none p [] h = refl
retain_none p (x ∷ xs) h = ground (arith, h x, retain_none p xs h)

retain_absent :
    (p : ℕ → Bool) (x : ℕ) (xs : List ℕ)
    → ((n : ℕ) → p n ≡ true → x ≡ n)
    → BTreeSet.contains xs x ≡ false
    → length (retain p xs) ≡ 0
unfolding BTreeSet.contains
retain_absent p x [] h c = refl
retain_absent p x (y ∷ ys) h c = elim (Bool-cases (p y)) [
  | inl e ↦ ground (arith, h y e, c, nat_ord.cmp_refl x)
  | inr e ↦ ground (arith, retain_absent p x ys h, e)
]

retain_one :
    (p : ℕ → Bool) (x : ℕ) (xs : List ℕ)
    → ((n : ℕ) → p n ≡ true → x ≡ n)
    → IsDistinct xs
    → length (retain p xs) ≤ 1
retain_one p x [] h d = omega arith
retain_one p x (y ∷ ys) h d = elim (Bool-cases (p y)) [
  | inl e ↦ ground (
    arith,
    e,
    retain_absent p x ys h (subst (λ z. BTreeSet.contains ys z ≡ false) (sym (h y e)) d.0),
  )
  | inr e ↦ ground (arith, retain_one p x ys h d.1, e)
]

-- Where every node decides on the same committed assignments and probe rounds, at most one node of a
-- list without duplicates binds a VIP, whatever each node's own health and freshness.
pub binder_count_le_one :
    (has_leader : Bool) (vip : IpAddr) (assignments : BTreeMap IpAddr VipAssignment)
    (peers : List ℕ) (local_healthy consensus_fresh : BTreeMap ℕ Bool)
    (node_probe_ticks : BTreeMap ℕ ℕ) (latest stale : ℕ)
    → IsDistinct peers
    → binder_count_for_vip has_leader vip assignments peers local_healthy consensus_fresh
        node_probe_ticks latest stale
      ≤ 1
unfolding binder_count_for_vip
binder_count_le_one has_leader vip assignments peers healthy fresh ticks latest stale d =
    let p = bound has_leader vip assignments healthy fresh ticks latest stale in
    elim (Option-cases (BTreeMap.get assignments vip)) [
      | inl e ↦ omega (
        arith,
        retain_none p peers
            (bound-unassigned has_leader vip assignments healthy fresh ticks latest stale e),
      )
      | inr (a, e) ↦
          retain_one p a.holder peers
            (bound-holder has_leader vip assignments healthy fresh ticks latest stale a e) d
    ]
