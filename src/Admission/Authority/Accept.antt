-- ===== src/Admission/Authority/Accept.antt =====
-- What the runtime holds after it has accepted a verified admission (src/runtime_permission/admission.rs).
use keep_afloat_d.Prelude.{
  ℕ, ◌<◌, ◌≡◌, refl, subst, Bool, true, false, not, none, some, leb, same, equal_iff, Result, ok,
  err, arith, Bool-cases, Result-cases, inl, inr, refuses-eq-ok, unless-eq-ok,
}
use keep_afloat_d.Identity.{
  replica_ord, AdmissionContext, AdmissionSession, AdmissionFence, AdmissionDenied, new_session,
  check_session,
}
use keep_afloat_d.Store.OpenRaft.{OpenRaft}
use keep_afloat_d.Admission.Record.{Crypto, JoinBinding}
use keep_afloat_d.Admission.Permission
use keep_afloat_d.Admission.Permission.{
  AuthorityContext, AuthorityContext-discrete, Stage, joining, voting, State, quarantined, active,
  sealed, admit, current, seal_expired, is_context, held,
}
use keep_afloat_d.Admission.Controller.{AdmissionMode, cold, join, renew}
use keep_afloat_d.Admission.Controller.Complete.{VerifiedAdmission}
use keep_afloat_d.Admission.Authority.{
  RuntimeAuthority, identity, bound_to_other, with_join, transition, check_held, check_authority,
  fence_of, open_session, accept,
}

module _ {raft : OpenRaft} where
  admit-Active :
      (now : ℕ) (c : AuthorityContext) (u : ℕ) (s : State raft)
      → (admit now c u s).1 ≡ true
      → (admit now c u s).0 ≡ active c voting u
  unfolding admit
  admit-Active now c u (quarantined r) h = ground arith
  admit-Active now c u (active d g v) h = cc
  admit-Active now c u sealed h = cc

  join-Active :
      (now : ℕ) (c : AuthorityContext) (p : raft.LogId) (u : ℕ) (s : State raft)
      → (Permission.join now c p u s).1 ≡ true
      → (Permission.join now c p u s).0 ≡ active c (joining p) u
  unfolding Permission.join
  join-Active now c p u s h = ground arith

  renew-Active :
      (now : ℕ) (c : AuthorityContext) (u : ℕ) (s : State raft)
      → (Permission.renew now c u s).1 ≡ true
      → (Permission.renew now c u s).0 ≡ active c voting u
  unfolding Permission.renew
  renew-Active now c u (quarantined r) h = ground arith
  renew-Active now c u sealed h = ground arith
  renew-Active now c u (active d (joining o) v) h = ground arith
  renew-Active now c u (active d voting v) h =
      ground (arith, (equal_iff AuthorityContext-discrete d c).0)

  seal_expired_live :
      (now : ℕ) (c : AuthorityContext) (g : Stage raft) (u : ℕ)
      → now < u
      → seal_expired now (active c g u) ≡ active c g u
  unfolding seal_expired
  seal_expired_live now c g u lt = ground arith

  -- The stage that a mode leads to.
  abbrev pub LeadsTo : AdmissionMode raft → Stage raft → Type 0
  LeadsTo cold g = g ≡ voting
  LeadsTo (join none) g = ⊥
  LeadsTo (join (some prepared)) g = g ≡ joining prepared.log_id
  LeadsTo (renew none) g = ⊥
  LeadsTo (renew (some progress)) g = g ≡ voting

  abbrev pub IsActive :
      AuthorityContext
      → ℕ
      → AdmissionMode raft
      → RuntimeAuthority raft
      → RuntimeAuthority raft
      → Type 0
  IsActive c u mode a b =
      (b.replica ≡ a.replica)
      × ((g : Stage raft) × ((b.permission ≡ active c g u) × LeadsTo mode g))

  with_join-IsActive :
      (c : AuthorityContext) (u : ℕ) (p : JoinBinding raft) (a : RuntimeAuthority raft)
      (r : State raft × Bool)
      → (r.1 ≡ true → r.0 ≡ active c (joining p.log_id) u)
      → (with_join p a r).1 ≡ true
      → IsActive c u (join (some p)) a (with_join p a r).0
  with_join-IsActive c u p a (s, true) f h = (refl, (joining p.log_id, (f refl, refl)))
  with_join-IsActive c u p a (s, false) f h = cc

  transition-IsActive :
      (now : ℕ) (c : AuthorityContext) (u : ℕ) (mode : AdmissionMode raft)
      (a : RuntimeAuthority raft)
      → (transition now c u mode a).1 ≡ ok true
      → IsActive c u mode a (transition now c u mode a).0
  unfolding transition
  transition-IsActive now c u cold a h =
      (refl, (voting, (admit-Active now c u a.permission (ground arith), refl)))
  transition-IsActive now c u (join none) a h = cc
  transition-IsActive now c u (renew none) a h = cc
  transition-IsActive now c u (renew (some progress)) a h =
      (refl, (voting, (renew-Active now c u a.permission (ground arith), refl)))
  transition-IsActive now c u (join (some p)) a h =
      elim (Bool-cases (bound_to_other a.join_binding p)) [
        | inl other ↦ ground arith
        | inr free ↦
            let moved = Permission.join now c p.log_id u a.permission in
            let (_, h1) = refuses-eq-ok (bound_to_other a.join_binding p) a _ _ _ h in
            let done : (with_join p a moved).1 ≡ true = cc in
            rw free
              (with_join-IsActive c u p a moved (join-Active now c p.log_id u a.permission) done)
      ]

-- A new session is opened only before the deadline of what the runtime holds.
new_session-eq-ok :
    (now : ℕ) (context : AdmissionContext) (fence : AdmissionFence) (session : AdmissionSession)
    → new_session now context fence ≡ ok session
    → (session.context ≡ context) × ((d : ℕ) × ((fence.check now context ≡ ok d) × (now < d)))
unfolding new_session check_session
new_session-eq-ok now context fence session h =
    let s : AdmissionSession = record { context = context; fence = fence } in
    let (_, h1) = unless-eq-ok (not (same fence.local_replica context.local_replica)) _ _ h in
    elim (Result-cases (fence.check now context)) [
      | inl (e, refused) ↦ ground arith
      | inr (d, given) ↦ (ground arith, (d, (given, ground arith)))
    ]

module _ {raft : OpenRaft} (crypto : Crypto) where
  held_until :
      (a : RuntimeAuthority raft) (context : AdmissionContext) (c : AuthorityContext)
      (g : Stage raft) (u d now : ℕ)
      → check_held crypto a context (current now (active c g u)).1 ≡ ok d
      → d ≡ u
  unfolding current seal_expired
  held_until a context c g u d now h = elim (Bool-cases (leb u now)) [
    | inl late ↦ ground arith
    | inr live ↦ ground arith
  ]

  check_authority-eq-ok :
      (now : ℕ) (context : AdmissionContext) (a : RuntimeAuthority raft) (c : AuthorityContext)
      (g : Stage raft) (u d : ℕ)
      → a.permission ≡ active c g u
      → check_authority crypto now context a ≡ ok d
      → d ≡ u
  unfolding check_authority current seal_expired
  check_authority-eq-ok now context a c g u d e h =
      held_until a context c g u d now
        (subst (λ s. check_held crypto a context (current now s).1 ≡ ok d) e h)

  -- What the runtime has become.
  pub record IsAccepted (later : ℕ) (verified : VerifiedAdmission raft)
      (a b : RuntimeAuthority raft) (session : AdmissionSession) : Type 0 where
    pub mine : verified.context.local_replica ≡ a.replica
    pub context : session.context ≡ verified.context
    pub stage : Stage raft
    pub permission :
        b.permission ≡ active (identity crypto a.replica verified.context) stage verified.deadline
    pub leads : LeadsTo verified.mode stage
    pub timely : later < verified.deadline

  opened-IsAccepted :
      (later : ℕ) (verified : VerifiedAdmission raft) (a b : RuntimeAuthority raft)
      (r : Result Bool AdmissionDenied) (session : AdmissionSession)
      → verified.context.local_replica ≡ a.replica
      → (r ≡ ok true
          → IsActive
              (identity crypto a.replica verified.context)
              verified.deadline
              verified.mode
              a
              b)
      → (open_session crypto later verified.context (b, r)).1 ≡ ok session
      → IsAccepted later verified a (open_session crypto later verified.context (b, r)).0 session
  opened-IsAccepted later verified a b (err e) session mine f h = cc
  opened-IsAccepted later verified a b (ok false) session mine f h = cc
  opened-IsAccepted later verified a b (ok true) session mine f h =
      let (_, (g, (e, leads))) = f refl in
      let (same, (d, (given, lt))) =
        new_session-eq-ok later verified.context (fence_of crypto b) session h in
      let until = check_authority-eq-ok later verified.context b _ g verified.deadline d e given in
      record {
        mine = mine;
        context = same;
        stage = g;
        permission = rw e (seal_expired_live later _ g verified.deadline (omega arith));
        leads = leads;
        timely = omega arith;
      }

  -- Where the runtime accepts a verified admission, the admission is this boot's, the session is for its
  -- context, and the permission is held for that context in the stage that the mode leads to, exactly
  -- until the deadline of the admission, which has not come.
  pub accept-IsAccepted :
      (now later : ℕ) (verified : VerifiedAdmission raft) (a : RuntimeAuthority raft)
      (session : AdmissionSession)
      → (accept crypto now later verified a).1 ≡ ok session
      → IsAccepted later verified a (accept crypto now later verified a).0 session
  unfolding accept
  accept-IsAccepted now later verified a session h =
      let foreign = not (same verified.context.local_replica a.replica) in
      let c = identity crypto a.replica verified.context in
      let moved = transition now c verified.deadline verified.mode a in
      let (mine, h1) = refuses-eq-ok foreign a _ _ _ h in
      rw mine (
        opened-IsAccepted later verified a moved.0 moved.1 session
          (replica_ord.eq_of_cmp verified.context.local_replica a.replica (ground arith))
          (transition-IsActive now c verified.deadline verified.mode a) h1)
