-- ===== src/Freshness/Revocation.antt =====
-- What takes a permit of src/consensus_freshness/permits.rs away.
use Prim.Native.Nat.{◌%◌}
use keep_afloat_d.Prelude.{
  ℕ, ◌+◌, ◌^◌, ◌≤◌, ◌<◌, ◌≡◌, ◌⊎◌, refl, Bool, true, false, not, ◌&&◌, ◌||◌, Option, none, some,
  List, [], ◌∷◌, length, ltb, leb, min, is_ok, arith, inl, inr, Bool-cases, unless-eq-true,
  unless-eq-some, >>=-eq-some, ==_iff,
}
use keep_afloat_d.Store.OpenRaft.{OpenRaft}
use keep_afloat_d.Admission.Duration.{checked}
use keep_afloat_d.Freshness.{
  VerifiedProgress, ConsensusFreshness, Permit, wrapping_add, check_progress, proof_deadline,
  is_fresh, advance, advance_until, record_applied, mark_unavailable, invalidate, acquire,
  check_permit, is_healthy, started_before, not_after, other_context,
}

-- An event in the life of a proof, with its time where one is read.
pub data Event (raft : OpenRaft) : Type 0 where
  reported : ℕ → VerifiedProgress raft → Event raft
  lost : Event raft
  invalidated : Event raft

-- After some events the epoch is at most as far on as there were events.
abbrev IsWithin : ℕ → ℕ → ℕ → Type 0
IsWithin start n epoch = (k : ℕ) × (k ≤ n) × (epoch ≡ (start + k) % 2 ^ 64)

step-IsWithin :
    (start k n e g : ℕ)
    → k ≤ n
    → e ≡ (start + k) % 2 ^ 64
    → (g ≡ e) ⊎ (g ≡ wrapping_add e 1)
    → IsWithin start (n + 1) g
step-IsWithin start k n e g le h (inl stay) = (k, omega arith, omega arith)
step-IsWithin start k n e g le h (inr move) = (k + 1, omega arith, omega arith)

and_and-eq-true : (a b c : Bool) → (a && b && c) ≡ true → a ≡ true
and_and-eq-true a b c h = ground arith

module _ {raft : OpenRaft} where
  acquire-epoch :
      (now : ℕ) (has_leader : Bool) (f : ConsensusFreshness raft) (permit : Permit raft)
      → acquire now has_leader f ≡ some permit
      → permit.stamp.epoch ≡ f.proof.invalidation_epoch
  unfolding acquire
  acquire-epoch now has_leader f permit h =
      let (_, h1) =
        unless-eq-some (not has_leader || not f.proof.available || not (is_fresh now f)) _ h in
      let (progress, _, h2) = >>=-eq-some f.proof.progress _ h1 in
      let (deadline, _, h3) = >>=-eq-some (proof_deadline f) _ h2 in ground arith

  check_permit-epoch :
      (now : ℕ) (permit : Permit raft) (f : ConsensusFreshness raft)
      → check_permit now permit f ≡ true
      → f.proof.invalidation_epoch ≡ permit.stamp.epoch
  unfolding check_permit
  check_permit-epoch now permit f h =
      let expired = leb permit.deadline now || not (is_ok (check_progress now permit.progress)) in
      let (_, h1) = unless-eq-true expired _ h in
      (==_iff f.proof.invalidation_epoch permit.stamp.epoch).0 (and_and-eq-true _ _ _ h1)

module _ {raft : OpenRaft} (log_le : raft.LogId → raft.LogId → Bool) where
  unfoldable pub happen : Event raft → ConsensusFreshness raft → ConsensusFreshness raft
  unfolding record_applied mark_unavailable invalidate
  happen (reported now p) f = (record_applied log_le now p f).0
  happen lost f = mark_unavailable f
  happen invalidated f = invalidate f

  -- The events, the earliest first.
  unfoldable pub run : List (Event raft) → ConsensusFreshness raft → ConsensusFreshness raft
  unfolding happen
  run [] f = f
  run (e ∷ es) f = run es (happen e f)

  -- An event leaves the epoch or moves it on by one.
  abbrev Moves : ConsensusFreshness raft → ConsensusFreshness raft → Type 0
  Moves f g =
      (g.proof.invalidation_epoch ≡ f.proof.invalidation_epoch)
      ⊎ (g.proof.invalidation_epoch ≡ wrapping_add f.proof.invalidation_epoch 1)

  advance-Moves :
      (now : ℕ) (p : VerifiedProgress raft) (f : ConsensusFreshness raft)
      → Moves f (advance log_le now p f).0
  advance-Moves now p f =
      elim (Bool-cases
        (started_before p.started f.proof.started || not_after log_le p f.proof.progress)) [
          | inl old ↦ rw old (inl refl)
          | inr new ↦
              rw new (elim (Bool-cases (not (is_fresh now f) || other_context f.proof.progress p)) [
                | inl broken ↦ rw broken (inr refl)
                | inr whole ↦ rw whole (inl refl)
              ])
        ]

  advance_until-Moves :
      (now : ℕ) (p : VerifiedProgress raft) (f : ConsensusFreshness raft) (o : Option ℕ)
      → Moves f (advance_until log_le now p f o).0
  advance_until-Moves now p f none = inl refl
  advance_until-Moves now p f (some limit) =
      elim (Bool-cases (ltb now p.started || leb (min limit p.accepted_deadline) now)) [
        | inl late ↦ rw late (inl refl)
        | inr live ↦ rw live (advance-Moves now p f)
      ]

  record_applied-Moves :
      (now : ℕ) (p : VerifiedProgress raft) (f : ConsensusFreshness raft)
      → Moves f (record_applied log_le now p f).0
  unfolding record_applied
  record_applied-Moves now p f = elim (Bool-cases (not (is_healthy p.applied.request.healthy))) [
    | inl ill ↦ rw ill (inl refl)
    | inr well ↦ elim (Bool-cases (not (is_ok (check_progress now p)))) [
      | inl revoked ↦ rw (well, revoked) (inl refl)
      | inr held ↦
          rw (well, held) (advance_until-Moves now p f (checked f.limit (p.started + f.lifetime)))
    ]
  ]

  happen-Moves : (e : Event raft) (f : ConsensusFreshness raft) → Moves f (happen e f)
  unfolding happen mark_unavailable invalidate
  happen-Moves (reported now p) f = record_applied-Moves now p f
  happen-Moves lost f = ground arith
  happen-Moves invalidated f = inr refl

  run-IsWithin :
      (es : List (Event raft)) (start n : ℕ) (f : ConsensusFreshness raft)
      → IsWithin start n f.proof.invalidation_epoch
      → IsWithin start (n + length es) (run es f).proof.invalidation_epoch
  unfolding run
  run-IsWithin [] start n f (k, le, h) = (k, omega arith, h)
  run-IsWithin (e ∷ es) start n f (k, le, h) =
      let (j, lj, hj) = run-IsWithin es start (n + 1) (happen e f) (
        step-IsWithin start k n f.proof.invalidation_epoch (happen e f).proof.invalidation_epoch le
          h (happen-Moves e f)) in
      (j, omega arith, hj)

  -- A permit to acquire an address is void once the proof has been invalidated, whatever fewer than
  -- 2 ^ 64 - 1 events follow and whatever time it is.
  pub invalidate-check_permit :
      (now later : ℕ) (has_leader : Bool) (f : ConsensusFreshness raft) (permit : Permit raft)
      (es : List (Event raft))
      → f.proof.invalidation_epoch < 2 ^ 64
      → acquire now has_leader f ≡ some permit
      → length es + 1 < 2 ^ 64
      → check_permit later permit (run es (invalidate f)) ≡ false
  unfolding invalidate
  invalidate-check_permit now later has_leader f permit es small got few =
      elim (Bool-cases (check_permit later permit (run es (invalidate f)))) [
        | inr void ↦ void
        | inl valid ↦
            let (k, le, h) =
              run-IsWithin es (f.proof.invalidation_epoch + 1) 0 (invalidate f)
                (0, omega arith, omega arith) in
            absurd (
              omega (
                arith,
                check_permit-epoch later permit _ valid,
                acquire-epoch now has_leader f permit got,
              ))
      ]
