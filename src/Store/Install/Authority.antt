-- ===== src/Store/Install/Authority.antt =====
-- Without local authority nothing is written, and a snapshot does not change the genesis.
use keep_afloat_d.Prelude.{
  ℕ, Bool, true, false, Option, none, some, List, [], ◌∷◌, ◌≡◌, ◌∙◌, ◌||◌, refl, arith,
  if◌then◌else◌, Result, ok, err, String, equal_iff,
}
use keep_afloat_d.Identity.{Genesis, Genesis-discrete}
use keep_afloat_d.Store.OpenRaft.{OpenRaft}
use keep_afloat_d.Store.State.{KafStorageState, KafSnapshot, Entry}
use keep_afloat_d.Store.Snapshot.{restore_into}
use keep_afloat_d.Store.Log.{
  check_mutation, guarded, compact, save_vote, save_committed, append, truncate_after, purge,
}
use keep_afloat_d.Store.Install.{excludes, session_genesis, adopt, install_snapshot, apply}

-- A genesis that is not excluded is the one that is known.
included_genesis :
    (known found : Option Genesis) (g : Genesis)
    → known ≡ some g
    → excludes known found ≡ false
    → found ≡ some g
included_genesis none found g h e = ground arith
included_genesis (some k) none g h e = ground arith
included_genesis (some k) (some f) g h e = ground (arith, equal_iff Genesis-discrete f k)

module _ {raft : OpenRaft} where
  refused :
      (now : ℕ) (s : KafStorageState raft)
      → s.admission ≡ none
      → check_mutation now s ≡ err "storage requires local admission"
  unfolding check_mutation
  refused now s h = rw h refl

  either_unchanged :
      (b : Bool) (s : KafStorageState raft) (x y : KafStorageState raft × Result (Unit {0}) String)
      → x.0 ≡ s
      → y.0 ≡ s
      → (if b then x else y).0 ≡ s
  either_unchanged true s x y p q = p
  either_unchanged false s x y p q = q

  install_unchanged :
      (now : ℕ) (snap : Option (KafSnapshot raft)) (s : KafStorageState raft)
      → s.admission ≡ none
      → (install_snapshot now snap s).0 ≡ s
  unfolding install_snapshot
  install_unchanged now none s h = refl
  install_unchanged now (some snap) s h = rw (refused now s h) (
      either_unchanged
        (excludes s.genesis snap.genesis || excludes (session_genesis s.admission) snap.genesis) s _
        _ refl refl)

  apply_unchanged :
      (entries : List (ℕ × Entry raft)) (s : KafStorageState raft)
      → s.admission ≡ none
      → (apply entries s).0 ≡ s
  unfolding apply
  apply_unchanged [] s h = refl
  apply_unchanged ((now, e) ∷ entries) s h = rw (apply, refused now s h) refl

  -- In a state with no local authority, no entry point of the log or of the state machine changes it: a vote, a
  -- commit frontier, new entries, a truncation, a purge, a snapshot and the applying of the log.
  pub unadmitted_unchanged :
      (now : ℕ) (vote : raft.Vote) (l : Option raft.LogId) (upto : raft.LogId)
      (entries : List (ℕ × Entry raft)) (snap : Option (KafSnapshot raft))
      (s : KafStorageState raft)
      → s.admission ≡ none
      → ((save_vote now vote s).0 ≡ s)
        × (((save_committed now l s).0 ≡ s)
            × (((append now entries s).0 ≡ s)
                × (((truncate_after now l s).0 ≡ s)
                    × (((purge now upto s).0 ≡ s)
                        × (((install_snapshot now snap s).0 ≡ s) × ((apply entries s).0 ≡ s))))))
  unfolding save_vote save_committed append truncate_after purge
  unadmitted_unchanged now vote l upto entries snap s h =
      let no : check_mutation now s ≡ err "storage requires local admission" = refused now s h in
      (
        rw no refl,
        (
          rw no refl,
          (
            rw (append, no) refl,
            (
              rw no refl,
              (rw no refl, (install_unchanged now snap s h, apply_unchanged entries s h)),
            ),
          ),
        ),
      )

  adopt-genesis :
      (snap : KafSnapshot raft) (s : KafStorageState raft) → (adopt snap s).genesis ≡ snap.genesis
  unfolding adopt restore_into compact
  adopt-genesis snap s = ground arith

  guarded-genesis :
      (r : Result (Unit {0}) String) (s t : KafStorageState raft) (g : Genesis)
      → s.genesis ≡ some g
      → t.genesis ≡ some g
      → (guarded r s t).0.genesis ≡ some g
  guarded-genesis (err e) s t g p q = p
  guarded-genesis (ok permitted) s t g p q = q

  either-genesis :
      (b : Bool) (x y : KafStorageState raft × Result (Unit {0}) String) (g : Genesis)
      → (b ≡ true → x.0.genesis ≡ some g)
      → (b ≡ false → y.0.genesis ≡ some g)
      → (if b then x else y).0.genesis ≡ some g
  either-genesis true x y g p q = p refl
  either-genesis false x y g p q = q refl

  -- Whatever snapshot is offered, a node that has applied a genesis keeps it.
  pub install_snapshot-genesis :
      (now : ℕ) (snap : Option (KafSnapshot raft)) (s : KafStorageState raft) (g : Genesis)
      → s.genesis ≡ some g
      → (install_snapshot now snap s).0.genesis ≡ some g
  unfolding install_snapshot
  install_snapshot-genesis now none s g h = h
  install_snapshot-genesis now (some snap) s g h =
      either-genesis
        (excludes s.genesis snap.genesis || excludes (session_genesis s.admission) snap.genesis) _
        (guarded (check_mutation now s) s (adopt snap s)) g (λ e. h)
        (λ e.
          guarded-genesis (check_mutation now s) s (adopt snap s) g h
            (adopt-genesis snap s ∙ included_genesis s.genesis snap.genesis g h (ground arith)))
