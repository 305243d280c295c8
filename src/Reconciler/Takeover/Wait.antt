-- ===== src/Reconciler/Takeover/Wait.antt =====
-- When `ready` of src/vip/takeover.rs lets a node take an address that nobody released.
use keep_afloat_d.Prelude.{
  ℕ, ◌-◌, ◌≤◌, ◌≡◌, refl, sym, subst, ◌∙◌, Bool, true, false, not, ◌||◌, Option, none, some, List,
  [], ◌∷◌, ◌==◌, same, arith, inl, inr, Bool-cases, nat_ord, same_self,
}
use keep_afloat_d.BTreeMap
use keep_afloat_d.BTreeMap.Laws.{get-insert_self, get-remove}
use keep_afloat_d.Addr.{IpAddr, ip_ord}
use keep_afloat_d.VipLogic.Reconcile.{VipAssignment}
use keep_afloat_d.Reconciler.Takeover.{
  Pending, TakeoverDelay, new_delay, same_tick, Sample, is_exempt, is_previous_fresh, tick_of,
  pending_of, wait_for, forget, ready_for, ready,
}

pub same_tick_eq : (a b : Option ℕ) → same_tick a b ≡ true → a ≡ b
same_tick_eq a b h = ground arith

module _ (vip : IpAddr) (node_id stale : ℕ) where
  -- The delay after the samples, the latest first.
  unfoldable pub after : ℕ → List Sample → TakeoverDelay
  unfolding ready
  after lifetime [] = new_delay lifetime
  after lifetime (s ∷ earlier) = (ready vip node_id stale s (after lifetime earlier)).0

  -- A sample in which this node holds the address in this generation, while the previous holder has not
  -- reported since this tick and is not fresh.
  pub record IsWaiting (g : ℕ) (tick : Option ℕ) (s : Sample) (a : VipAssignment) : Type 0 where
    pub assigned : s.assignment ≡ some a
    pub holder : a.holder ≡ node_id
    pub generation : a.generation ≡ g
    pub silent : tick_of a.previous_holder s.ticks ≡ tick
    pub stale_holder : is_previous_fresh a.previous_holder s.ticks s.frontier stale ≡ false

  -- Every sample back to the one at this time is waiting for the same.
  pub data IsWaitingSince (g : ℕ) (tick : Option ℕ) (began : ℕ) : List Sample → Type 0 where
    begins :
        (s : Sample) (a : VipAssignment) (earlier : List Sample)
        → s.now ≡ began
        → IsWaiting g tick s a
        → IsWaitingSince g tick began (s ∷ earlier)
    goes_on :
        (s : Sample) (a : VipAssignment) (earlier : List Sample)
        → IsWaiting g tick s a
        → IsWaitingSince g tick began earlier
        → IsWaitingSince g tick began (s ∷ earlier)

  -- Why a sample lets the node take the address: the assignment needs no wait, or the wait for the same
  -- silent holder has lasted the lifetime.
  pub data IsAllowed (lifetime : ℕ) (s : Sample) (earlier : List Sample) : Type 0 where
    exempt :
        (a : VipAssignment)
        → s.assignment ≡ some a
        → a.holder ≡ node_id
        → is_exempt s.activated_generation a ≡ true
        → IsAllowed lifetime s earlier
    waited :
        (g : ℕ) (tick : Option ℕ) (began : ℕ)
        → IsWaitingSince g tick began (s ∷ earlier)
        → lifetime ≤ s.later - began
        → IsAllowed lifetime s earlier

  waits :
      (s : Sample) (a : VipAssignment)
      → s.assignment ≡ some a
      → a.holder ≡ node_id
      → is_previous_fresh a.previous_holder s.ticks s.frontier stale ≡ false
      → IsWaiting a.generation (tick_of a.previous_holder s.ticks) s a
  waits s a e h f = record {
    assigned = e;
    holder = h;
    generation = refl;
    silent = refl;
    stale_holder = f;
  }

  -- The entry of the map tells what has been waited for, and since when.
  abbrev Records : Option Pending → List Sample → Type 0
  Records none ss = Unit
  Records (some p) ss = IsWaitingSince p.generation p.previous_tick p.began ss

  pending_of-Records :
      (o : Option Pending) (s : Sample) (a : VipAssignment) (earlier : List Sample)
      → Records o earlier
      → s.assignment ≡ some a
      → a.holder ≡ node_id
      → is_previous_fresh a.previous_holder s.ticks s.frontier stale ≡ false
      → Records
          (some (pending_of o s.now a.generation (tick_of a.previous_holder s.ticks)))
          (s ∷ earlier)
  pending_of-Records none s a earlier r e h f = begins s a earlier refl (waits s a e h f)
  pending_of-Records (some p) s a earlier r e h f =
      elim (Bool-cases (
        not (p.generation == a.generation)
        || not (same_tick p.previous_tick (tick_of a.previous_holder s.ticks)))) [
          | inl changed ↦ rw changed (begins s a earlier refl (waits s a e h f))
          | inr same ↦ rw same (
              goes_on s a earlier
                (record {
                  assigned = e;
                  holder = h;
                  generation = ground arith;
                  silent = sym (same_tick_eq _ _ (ground arith));
                  stale_holder = f;
                })
                r)
        ]

  forget-Records :
      (d : TakeoverDelay) (ss : List Sample) → Records (BTreeMap.get (forget vip d).waiting vip) ss
  forget-Records d ss = rw (get-remove d.waiting vip vip, same_self vip) tt

  -- What a call of `ready` shows, where the map records what came before it.
  abbrev IsReady : ℕ → Sample → List Sample → TakeoverDelay × Bool → Type 0
  IsReady lifetime s earlier r =
      Records (BTreeMap.get r.0.waiting vip) (s ∷ earlier)
      × (r.0.lifetime ≡ lifetime)
      × (r.1 ≡ true → IsAllowed lifetime s earlier)

  wait_for-IsReady :
      (s : Sample) (a : VipAssignment) (earlier : List Sample) (d : TakeoverDelay)
      → Records (BTreeMap.get d.waiting vip) earlier
      → s.assignment ≡ some a
      → a.holder ≡ node_id
      → is_previous_fresh a.previous_holder s.ticks s.frontier stale ≡ false
      → IsReady d.lifetime s earlier (wait_for vip s a d)
  wait_for-IsReady s a earlier d r e h f =
      let p =
        pending_of (BTreeMap.get d.waiting vip) s.now a.generation
          (tick_of a.previous_holder s.ticks) in
      let since = pending_of-Records (BTreeMap.get d.waiting vip) s a earlier r e h f in
      (
        rw (get-insert_self d.waiting vip p) since,
        refl,
        λ t. waited p.generation p.previous_tick p.began since (ground arith),
      )

  ready_for-IsReady :
      (s : Sample) (o : Option VipAssignment) (earlier : List Sample) (d : TakeoverDelay)
      → Records (BTreeMap.get d.waiting vip) earlier
      → s.assignment ≡ o
      → IsReady d.lifetime s earlier (ready_for vip node_id stale s o d)
  ready_for-IsReady s none earlier d r e = (forget-Records d (s ∷ earlier), refl, λ t. cc)
  ready_for-IsReady s (some a) earlier d r e = elim (Bool-cases (a.holder == node_id)) [
    | inr other ↦ rw other (forget-Records d (s ∷ earlier), refl, λ t. cc)
    | inl mine ↦ elim (Bool-cases (is_exempt s.activated_generation a)) [
      | inl free ↦
          rw (mine, free)
            (forget-Records d (s ∷ earlier), refl, λ t. exempt a e (ground arith) free)
      | inr bound ↦
          elim (Bool-cases (is_previous_fresh a.previous_holder s.ticks s.frontier stale)) [
            | inl fresh ↦ rw (mine, bound, fresh) (forget-Records d (s ∷ earlier), refl, λ t. cc)
            | inr silent ↦
                rw (mine, bound, silent) (wait_for-IsReady s a earlier d r e (ground arith) silent)
          ]
    ]
  ]

  after-Records :
      (lifetime : ℕ) (ss : List Sample)
      → Records (BTreeMap.get (after lifetime ss).waiting vip) ss
        × ((after lifetime ss).lifetime ≡ lifetime)
  unfolding after ready BTreeMap.get
  after-Records lifetime [] = (tt, refl)
  after-Records lifetime (s ∷ earlier) =
      let (r, e) = after-Records lifetime earlier in
      let q = ready_for-IsReady s s.assignment earlier (after lifetime earlier) r refl in
      (q.0, q.1 ∙ e)

  -- After any samples, where the delay lets the node take the address, the node is the holder and the
  -- generation was activated here before, the previous holder released the address or nobody had held
  -- it before; or without a break, from a sample that lies the whole lifetime back, all samples saw the
  -- same generation with this node as its holder, and a previous holder, if any, that is not fresh and
  -- has not reported again.
  pub ready-IsAllowed :
      (lifetime : ℕ) (s : Sample) (earlier : List Sample)
      → (ready vip node_id stale s (after lifetime earlier)).1 ≡ true
      → IsAllowed lifetime s earlier
  unfolding ready
  ready-IsAllowed lifetime s earlier h =
      let (r, e) = after-Records lifetime earlier in
      let q = ready_for-IsReady s s.assignment earlier (after lifetime earlier) r refl in
      subst (λ l. IsAllowed l s earlier) e (q.2 h)
