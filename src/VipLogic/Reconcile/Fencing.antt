-- ===== src/VipLogic/Reconcile/Fencing.antt =====
-- Generations fence the holders: a generation names at most one holder of a VIP, and a new holder
-- waits for the one before it.
use keep_afloat_d.Prelude.{
  ℕ, ◌+◌, ◌≤◌, ◌<◌, false, Option, none, some, ◌≡◌, ◌≢◌, refl, ◌∙◌, arith, u64_max, unwrap_or,
}
use keep_afloat_d.VipLogic.Reconcile.{VipAssignment}
use keep_afloat_d.VipLogic.Reconcile.Slots.{Slot, slot_step, unlisted}

-- The current assignment carries the last generation, and its holder is the last holder.
abbrev pub Matches : Option VipAssignment → Option ℕ → Option ℕ → Type 0
Matches none generation last_holder = Unit
Matches (some a) generation last_holder =
    (generation ≡ some a.generation) × (last_holder ≡ some a.holder)

-- A VIP that had a holder has a generation.
abbrev pub Counted : Option ℕ → Option ℕ → Type 0
Counted none generation = Unit
Counted (some p) generation = 1 ≤ unwrap_or generation 0

pub record IsFenced (s : Slot) : Type 0 where
  pub matching : Matches s.assignment s.generation s.last_holder
  pub counted : Counted s.last_holder s.generation

abbrev pub current_generation : Slot → ℕ
current_generation s = unwrap_or s.generation 0

pub slot_step-IsFenced :
    (next : Option ℕ) (tick : ℕ) (s : Slot) → IsFenced s → IsFenced (slot_step next tick s)
slot_step-IsFenced none tick s v = ground arith
slot_step-IsFenced (some holder) tick s v = ground arith

pub unlisted-IsFenced : (s : Slot) → IsFenced s → IsFenced (unlisted s)
unlisted-IsFenced s v = ground arith

-- `t` comes from `s` by steps: the generation has not fallen, and where it is the same (and has not
-- met the end of `u64`) so is the last holder.
pub record Later (s t : Slot) : Type 0 where
  pub grows : current_generation s ≤ current_generation t
  pub same_holder :
      current_generation s ≡ current_generation t
      → current_generation s < u64_max
      → t.last_holder ≡ s.last_holder

pub Later-refl : (s : Slot) → Later s s
Later-refl s = record { grows = omega arith; same_holder = λ e h. refl }

pub Later-trans : (s t u : Slot) → Later s t → Later t u → Later s u
Later-trans s t u p q = record {
  grows = omega (arith, p.grows, q.grows);
  same_holder = λ e h.
      q.same_holder (omega (arith, p.grows, q.grows)) (omega (arith, p.grows, q.grows))
      ∙ p.same_holder (omega (arith, p.grows, q.grows)) h;
}

abbrev pub InRange : Slot → Type 0
InRange s = current_generation s ≤ u64_max

pub slot_step-Later :
    (next : Option ℕ) (tick : ℕ) (s : Slot)
    → InRange s
    → IsFenced s
    → Later s (slot_step next tick s)
slot_step-Later none tick s r v = ground arith
slot_step-Later (some holder) tick s r v = ground arith

-- The assignment of a VIP that another node, `p`, held last, in a round with this tick and after this
-- generation.
pub record TakesOver (p tick generation : ℕ) (a : VipAssignment) : Type 0 where
  pub previous : a.previous_holder ≡ some p
  pub unreleased : a.previous_holder_released ≡ false
  pub next : a.generation ≡ generation + 1
  pub active : a.activation_tick ≡ tick + 1

-- A step that gives a fenced VIP to another node than its last holder, short of the end of `u64`.
pub slot_step-TakesOver :
    (next : Option ℕ) (tick p : ℕ) (s : Slot) (a : VipAssignment)
    → IsFenced s
    → s.last_holder ≡ some p
    → (slot_step next tick s).assignment ≡ some a
    → p ≢ a.holder
    → current_generation s < u64_max
    → tick < u64_max
    → TakesOver p tick (current_generation s) a
slot_step-TakesOver none tick p s a v e h n g t = ground arith
slot_step-TakesOver (some holder) tick p s a v e h n g t = record {
  previous = ground arith;
  unreleased = ground arith;
  next = ground arith;
  active = ground arith;
}
