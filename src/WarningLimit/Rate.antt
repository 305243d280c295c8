-- ===== src/WarningLimit/Rate.antt =====
-- How often the log shows the warnings of a site (src/warning_limit.rs).
use keep_afloat_d.Prelude.{
  ℕ, ◌+◌, ◌≤◌, ◌<◌, ◌≡◌, true, false, Option, none, some, List, [], ◌∷◌, ◌++◌, Ord, same, same_self,
  is_some, arith, Bool-cases, inl, inr, ◌⊎◌,
}
use keep_afloat_d.BTreeMap
use keep_afloat_d.WarningLimit.{Window, interval, note}
use keep_afloat_d.WarningLimit.Account.{
  once, recorded, window_of, line, window_of-record_warning, line_lem,
}

-- Whether the last line of the log, if any, came no later than this instant.
abbrev NotAfter : ℕ → Option ℕ → Type 0
NotAfter t none = Unit
NotAfter t (some last) = last ≤ t

-- Whether there was a last line, no later than this instant.
abbrev EmittedBy : ℕ → Option ℕ → Type 0
EmittedBy t none = ⊥
EmittedBy t (some last) = last ≤ t

note-NotAfter :
    (t now : ℕ) (window : Window)
    → now ≤ t
    → NotAfter t window.last_emitted
    → NotAfter t (note now window).0.last_emitted
unfolding note
note-NotAfter t now window early h = ground (arith, early)

note-EmittedBy :
    (t now : ℕ) (window : Window)
    → now ≤ t
    → NotAfter t window.last_emitted
    → EmittedBy t (note now window).0.last_emitted
unfolding note
note-EmittedBy t now window early h = ground (arith, early)

note-next :
    (t now : ℕ) (window : Window)
    → EmittedBy t window.last_emitted
    → (is_some (note now window).1 ≡ true)
      ⊎ ((is_some (note now window).1 ≡ false) × EmittedBy t (note now window).0.last_emitted)
unfolding note
note-next t now window h = ground arith

note-due :
    (t now : ℕ) (window : Window)
    → t + interval ≤ now
    → EmittedBy t window.last_emitted
    → is_some (note now window).1 ≡ true
unfolding note
note-due t now window late h = ground (arith, late)

module _ {Site : Type 0} ⦃o : Ord Site⦄ where
  -- Whether every instant of the list is no later than `t`.
  abbrev pub AllBy : ℕ → List (Site × ℕ) → Type 0
  AllBy t [] = Unit
  AllBy t ((site, now) ∷ earlier) = (now ≤ t) × AllBy t earlier

  -- The number of lines in the log for `w`.
  unfoldable pub lines : Site → List (Site × ℕ) → ℕ
  lines w [] = 0
  lines w (warning ∷ earlier) = lines w earlier + once (is_some (line w warning (recorded earlier)))

  recorded-NotAfter :
      (t : ℕ) (w : Site) (history : List (Site × ℕ))
      → AllBy t history
      → NotAfter t (window_of (recorded history) w).last_emitted
  unfolding recorded BTreeMap.get
  recorded-NotAfter t w [] all = tt
  recorded-NotAfter t w ((site, now) ∷ earlier) all =
      let before = recorded-NotAfter t w earlier all.1 in
      let windows = recorded earlier in
      let there = window_of-record_warning windows w site now in
      elim (Bool-cases (same w site)) [
        | inl at_w ↦ rw (there, at_w) (note-NotAfter t now (window_of windows w) all.0 before)
        | inr other ↦ rw (there, other) before
      ]

  -- Since `earlier`, either the log has a further line for `w`, or it had its last one by `t`.
  Since : ℕ → Site → List (Site × ℕ) → List (Site × ℕ) → Type 0
  Since t w earlier history =
      (lines w earlier < lines w history)
      ⊎ ((lines w earlier ≡ lines w history)
          × EmittedBy t (window_of (recorded history) w).last_emitted)

  recorded-Since :
      (t : ℕ) (w : Site) (between earlier : List (Site × ℕ))
      → AllBy t earlier
      → Since t w earlier (between ++ (w, t) ∷ earlier)
  unfolding Since recorded lines
  recorded-Since t w [] earlier all =
      let windows = recorded earlier in
      let there = window_of-record_warning windows w w t in
      let first =
        note-EmittedBy t t (window_of windows w) (omega arith)
          (recorded-NotAfter t w earlier all) in
      rw (line_lem windows w w t, there, same_self w)
        (elim (Bool-cases (is_some (note t (window_of windows w)).1)) [
          | inl emitted ↦ rw emitted (inl (omega arith))
          | inr silent ↦ rw silent (inr (omega arith, first))
        ])
  recorded-Since t w ((site, now) ∷ between) earlier all =
      let history = between ++ (w, t) ∷ earlier in
      let windows = recorded history in
      let there = window_of-record_warning windows w site now in
      elim (recorded-Since t w between earlier all) [
        | inl more ↦ inl (omega arith)
        | inr (same_lines, last) ↦ elim (Bool-cases (same w site)) [
          | inl at_w ↦
              rw (line_lem windows w site now, there, at_w)
                (elim (note-next t now (window_of windows w) last) [
                  | inl emitted ↦ rw emitted (inl (omega arith))
                  | inr (silent, kept) ↦ rw silent (inr (omega arith, kept))
                ])
          | inr other ↦ rw (line_lem windows w site now, there, other) (inr (omega arith, last))
        ]
      ]

  -- Where a site warns at `t`, no earlier than every warning before, and again at least 30 seconds
  -- later, the log has a line for the site among these two warnings and those between them.
  pub lines_grow :
      (t now : ℕ) (w : Site) (between earlier : List (Site × ℕ))
      → AllBy t earlier
      → t + interval ≤ now
      → lines w earlier < lines w ((w, now) ∷ between ++ (w, t) ∷ earlier)
  unfolding Since lines recorded
  lines_grow t now w between earlier all late =
      let windows = recorded (between ++ (w, t) ∷ earlier) in
      elim (recorded-Since t w between earlier all) [
        | inl more ↦ omega arith
        | inr (same_lines, last) ↦
            let due = note-due t now (window_of windows w) late last in
            rw (line_lem windows w w now, same_self w, due) (omega arith)
      ]
