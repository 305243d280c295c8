-- ===== src/WarningLimit.antt =====
-- The limit on repeated warnings (src/warning_limit.rs). A warning's site is a key with an order.
pub mod Account
pub mod Rate
pub mod Examples
use keep_afloat_d.Prelude.{
  ℕ, ◌-◌, Bool, true, false, Option, none, some, Ord, leb, if◌then◌else◌, saturating_add,
}
use keep_afloat_d.BTreeMap
use keep_afloat_d.BTreeMap.{BTreeMap}
use keep_afloat_d.Admission.Duration.{seconds}

-- `INTERVAL`
abbrev pub interval : ℕ
interval = seconds 30

pub record Window : Type 0 where
  pub last_emitted : Option ℕ
  pub suppressed : ℕ

-- `Window::default()`
abbrev pub new_window : Window
new_window = record { last_emitted = none; suppressed = 0 }

abbrev pub WarningLimiter : Type 0 → Type 0
WarningLimiter Site = BTreeMap Site Window

-- `last_emitted.is_none_or(..)`, where `duration_since` is zero for a later instant.
abbrev pub is_due : Option ℕ → ℕ → Bool
is_due none now = true
is_due (some last) now = leb interval (now - last)

-- The window after a warning, and the number of suppressed warnings that the log shows with it; `none`
-- where the warning is suppressed.
unfoldable pub note : ℕ → Window → Window × Option ℕ
note now window =
    if is_due window.last_emitted now
    then (record { last_emitted = some now; suppressed = 0 }, some window.suppressed)
    else (record window { suppressed = saturating_add window.suppressed 1 }, none)

module _ {Site : Type 0} ⦃o : Ord Site⦄ where
  -- `WarningLimiter::record`
  unfoldable pub record_warning : Site → ℕ → WarningLimiter Site → WarningLimiter Site × Option ℕ
  unfolding note
  record_warning site now windows =
      let noted = note now (BTreeMap.get_or windows site new_window) in
      (BTreeMap.insert windows site noted.0, noted.1)
