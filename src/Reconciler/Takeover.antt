-- ===== src/Reconciler/Takeover.antt =====
-- `TakeoverDelay` of src/vip/takeover.rs: the local wait for a previous holder that has not released an
-- address. A hash map is an ordered map, since no order of it is read.
pub mod Wait
use keep_afloat_d.Prelude.{
  ℕ, ◌+◌, ◌-◌, Bool, true, false, not, ◌&&◌, ◌||◌, Option, none, some, [], leb, ◌==◌, if◌then◌else◌,
  is_some, unwrap_or, nat_ord, u64_max,
}
use keep_afloat_d.BTreeMap
use keep_afloat_d.BTreeMap.{BTreeMap}
use keep_afloat_d.Addr.{IpAddr, ip_ord}
use keep_afloat_d.VipLogic.Eligibility.{is_node_probe_fresh}
use keep_afloat_d.VipLogic.Reconcile.{VipAssignment}
use keep_afloat_d.BindPolicy.{is_activated}

-- The generation that is waited for, the previous holder's tick, and the beginning of the wait.
pub record Pending : Type 0 where
  pub generation : ℕ
  pub previous_tick : Option ℕ
  pub began : ℕ

pub record TakeoverDelay : Type 0 where
  pub lifetime : ℕ
  pub waiting : BTreeMap IpAddr Pending

-- `TakeoverDelay::new`
abbrev pub new_delay : ℕ → TakeoverDelay
new_delay lifetime = record { lifetime = lifetime; waiting = [] }

-- `==` on two optional ticks.
abbrev pub same_tick : Option ℕ → Option ℕ → Bool
same_tick none none = true
same_tick (some a) (some b) = a == b
same_tick none (some b) = false
same_tick (some a) none = false

-- What one call of `ready` reads besides the address, the node and the staleness window: the two
-- times, the assignment, and the state's ticks.
pub record Sample : Type 0 where
  pub now : ℕ
  pub later : ℕ
  pub assignment : Option VipAssignment
  pub ticks : BTreeMap ℕ ℕ
  pub frontier : ℕ
  pub activated_generation : Option ℕ

-- The assignments that need no wait: this process has activated the generation, the previous holder
-- has released the address, or nobody has held it before.
abbrev pub is_exempt : Option ℕ → VipAssignment → Bool
is_exempt activated_generation a =
    is_activated activated_generation a.generation
    || (is_some a.previous_holder && a.previous_holder_released)
    || (not (is_some a.previous_holder) && a.generation == 1)

-- Whether there is a previous holder that still reports.
abbrev pub is_previous_fresh : Option ℕ → BTreeMap ℕ ℕ → ℕ → ℕ → Bool
is_previous_fresh none ticks frontier stale = false
is_previous_fresh (some previous) ticks frontier stale =
    is_node_probe_fresh previous ticks frontier stale

abbrev pub tick_of : Option ℕ → BTreeMap ℕ ℕ → Option ℕ
tick_of none ticks = none
tick_of (some node) ticks = BTreeMap.get ticks node

-- The entry of the map as the wait goes on, or begins again when what it waits for has changed.
abbrev pub pending_of : Option Pending → ℕ → ℕ → Option ℕ → Pending
pending_of none now generation previous_tick = record {
  generation = generation;
  previous_tick = previous_tick;
  began = now;
}
pending_of (some p) now generation previous_tick =
    if not (p.generation == generation) || not (same_tick p.previous_tick previous_tick)
    then record { generation = generation; previous_tick = previous_tick; began = now }
    else p

-- The end of `ready`: the wait for a previous holder.
abbrev pub wait_for : IpAddr → Sample → VipAssignment → TakeoverDelay → TakeoverDelay × Bool
wait_for vip s a delay =
    let pending =
      pending_of (BTreeMap.get delay.waiting vip) s.now a.generation
        (tick_of a.previous_holder s.ticks) in
    (
      record delay { waiting = BTreeMap.insert delay.waiting vip pending },
      leb delay.lifetime (s.later - pending.began),
    )

abbrev pub forget : IpAddr → TakeoverDelay → TakeoverDelay
forget vip delay = record delay { waiting = BTreeMap.remove delay.waiting vip }

abbrev pub ready_for :
    IpAddr → ℕ → ℕ → Sample → Option VipAssignment → TakeoverDelay → TakeoverDelay × Bool
ready_for vip node_id stale s none delay = (forget vip delay, false)
ready_for vip node_id stale s (some a) delay =
    if not (a.holder == node_id)
    then (forget vip delay, false)
    else if is_exempt s.activated_generation a
    then (forget vip delay, true)
    else if is_previous_fresh a.previous_holder s.ticks s.frontier stale
    then (forget vip delay, false)
    else wait_for vip s a delay

-- `TakeoverDelay::ready`
unfoldable pub ready : IpAddr → ℕ → ℕ → Sample → TakeoverDelay → TakeoverDelay × Bool
ready vip node_id stale s delay = ready_for vip node_id stale s s.assignment delay
