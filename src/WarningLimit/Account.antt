-- ===== src/WarningLimit/Account.antt =====
-- Whether the log accounts for every warning (src/warning_limit.rs).
use keep_afloat_d.Prelude.{
  ℕ, ◌+◌, ◌≤◌, ◌≡◌, refl, Bool, Option, none, some, List, [], ◌∷◌, Ord, same, if◌then◌else◌,
  u64_max, arith, Bool-cases, inl, inr,
}
use keep_afloat_d.BTreeMap
use keep_afloat_d.BTreeMap.Laws.{get-insert}
use keep_afloat_d.WarningLimit.{Window, WarningLimiter, new_window, is_due, note, record_warning}

-- How many warnings a line of the log stands for: its own, and those that it shows as suppressed.
abbrev pub shown : Option ℕ → ℕ
shown none = 0
shown (some suppressed) = suppressed + 1

-- `Bool` as a number.
abbrev pub once : Bool → ℕ
once b = if b then 1 else 0

module _ {Site : Type 0} ⦃o : Ord Site⦄ where
  -- The limiter after warnings, each with its site and instant, the latest first.
  unfoldable pub recorded : List (Site × ℕ) → WarningLimiter Site
  recorded [] = []
  recorded ((site, now) ∷ earlier) = (record_warning site now (recorded earlier)).0

  abbrev pub window_of : WarningLimiter Site → Site → Window
  window_of windows site = BTreeMap.get_or windows site new_window

  -- What the log shows of a warning of `w`.
  abbrev pub line : Site → Site × ℕ → WarningLimiter Site → Option ℕ
  line w (site, now) windows = if same w site then (record_warning site now windows).1 else none

  -- The number of warnings of `w`, and the number that its lines in the log stand for.
  abbrev pub warnings : Site → List (Site × ℕ) → ℕ
  warnings w [] = 0
  warnings w ((site, now) ∷ earlier) = warnings w earlier + once (same w site)

  unfoldable pub reported : Site → List (Site × ℕ) → ℕ
  reported w [] = 0
  reported w (warning ∷ earlier) = reported w earlier + shown (line w warning (recorded earlier))

  pub window_of-record_warning :
      (windows : WarningLimiter Site) (w site : Site) (now : ℕ)
      → window_of (record_warning site now windows).0 w
        ≡ (if same w site then (note now (window_of windows w)).0 else window_of windows w)
  unfolding record_warning
  window_of-record_warning windows w site now =
      ground
        (arith, get-insert windows site w (note now (window_of windows site)).0, o.eq_of_cmp w site)

  pub line_lem :
      (windows : WarningLimiter Site) (w site : Site) (now : ℕ)
      → line w (site, now) windows
        ≡ (if same w site then (note now (window_of windows w)).1 else none)
  unfolding record_warning
  line_lem windows w site now = ground (arith, o.eq_of_cmp w site)

note-shown :
    (now : ℕ) (window : Window)
    → window.suppressed + 1 ≤ u64_max
    → shown (note now window).1 + (note now window).0.suppressed ≡ window.suppressed + 1
unfolding note
note-shown now window small = elim (Bool-cases (is_due window.last_emitted now)) [
  | inl due ↦ rw due (omega arith)
  | inr early ↦ rw early (omega arith)
]

module _ {Site : Type 0} ⦃o : Ord Site⦄ where
  -- As long as a site has no more warnings than `u64` counts, the lines of the log for the site, with the
  -- suppressed ones that they show, and the ones that are still to be shown are all its warnings.
  pub reported_lem :
      (w : Site) (history : List (Site × ℕ))
      → warnings w history ≤ u64_max
      → reported w history + (window_of (recorded history) w).suppressed ≡ warnings w history
  unfolding reported recorded BTreeMap.get
  reported_lem w [] small = refl
  reported_lem w ((site, now) ∷ earlier) small =
      let before = reported_lem w earlier (omega arith) in
      let windows = recorded earlier in
      let there = window_of-record_warning windows w site now in
      elim (Bool-cases (same w site)) [
        | inl at_w ↦
            let small_here = rw at_w at small in
            let noted = note-shown now (window_of windows w) (omega arith) in
            rw (line_lem windows w site now, there, at_w) (omega arith)
        | inr other ↦ rw (line_lem windows w site now, there, other) (omega arith)
      ]
