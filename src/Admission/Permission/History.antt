-- ===== src/Admission/Permission/History.antt =====
-- What any history of calls does to the authority of src/runtime_permission.rs.
use keep_afloat_d.Prelude.{
  ℕ, ◌≤◌, ◌<◌, ◌≡◌, ◌⊎◌, refl, inl, inr, Bool, true, false, Option, none, some, List, [], ◌∷◌, leb,
  if◌then◌else◌, equal_iff, Bool-cases, arith, ap, sym, subst,
}
use keep_afloat_d.Store.OpenRaft.{OpenRaft}
use keep_afloat_d.Admission.Permission.{
  AuthorityContext, AuthorityContext-discrete, Stage, joining, voting, State, quarantined, active,
  sealed, seal_expired, may_start, admit, join, mark_promoted, renew, current, seal, Call, admits,
  joins, promotes, renews, asks, seals, call, calls,
}

module _ {raft : OpenRaft} where
  -- How a stage may change: a learner's operation is one, and it ends by voting.
  abbrev pub Matures : Stage raft → Stage raft → Type 0
  Matures voting t = t ≡ voting
  Matures (joining operation) t = (t ≡ joining operation) ⊎ (t ≡ voting)

  -- How authority may change while it is held: the same context, and a deadline that only moves on.
  abbrev pub Extends : AuthorityContext → Stage raft → ℕ → State raft → Type 0
  Extends context stage until (active context' stage' until') =
      (context' ≡ context) × (Matures stage stage' × (until ≤ until'))
  Extends context stage until sealed = Unit
  Extends context stage until (quarantined ready) = ⊥

  abbrev pub Advances : State raft → State raft → Type 0
  Advances sealed t = t ≡ sealed
  Advances (active context stage until) t = Extends context stage until t
  Advances (quarantined ready) t = Unit

  Matures-refl : (s : Stage raft) → Matures s s
  Matures-refl voting = refl
  Matures-refl (joining operation) = inl refl

  Matures-trans : (s t u : Stage raft) → Matures s t → Matures t u → Matures s u
  Matures-trans s t u p q = ground arith

  Advances-refl : (s : State raft) → Advances s s
  Advances-refl sealed = refl
  Advances-refl (quarantined ready) = tt
  Advances-refl (active context stage until) = (refl, (Matures-refl stage, omega arith))

  Advances-trans : (s t u : State raft) → Advances s t → Advances t u → Advances s u
  Advances-trans sealed t u p q = ground arith
  Advances-trans (quarantined ready) t u p q = tt
  Advances-trans (active context stage until) (quarantined ready) u p q = absurd p
  Advances-trans (active context stage until) sealed u p q = ground arith
  Advances-trans (active c g n) (active c' g' n') (quarantined ready) p q = absurd q
  Advances-trans (active c g n) (active c' g' n') sealed p q = tt
  Advances-trans (active c g n) (active c' g' n') (active c'' g'' n'') p q =
      (cc, (Matures-trans g g' g'' p.1.0 q.1.0, omega arith))

  admit-Advances :
      (now : ℕ) (context : AuthorityContext) (until : ℕ) (s : State raft)
      → Advances s (admit now context until s).0
  unfolding admit seal_expired
  admit-Advances now context until (quarantined ready) = tt
  admit-Advances now context until sealed = refl
  admit-Advances now context until (active c g n) = ground (arith, Matures-refl g)

  join-Advances :
      (now : ℕ) (context : AuthorityContext) (prepared : raft.LogId) (until : ℕ) (s : State raft)
      → Advances s (join now context prepared until s).0
  unfolding join
  join-Advances now context prepared until (quarantined ready) = tt
  join-Advances now context prepared until sealed = refl
  join-Advances now context prepared until (active c voting n) = ground arith
  join-Advances now context prepared until (active c (joining o) n) = ground (
    arith,
    (equal_iff AuthorityContext-discrete c context).0,
    (equal_iff raft.log_id-discrete o prepared).0,
  )

  mark_promoted-Advances :
      (now : ℕ) (context : AuthorityContext) (prepared : raft.LogId) (s : State raft)
      → Advances s (mark_promoted now context prepared s).0
  unfolding mark_promoted
  mark_promoted-Advances now context prepared (quarantined ready) = tt
  mark_promoted-Advances now context prepared sealed = refl
  mark_promoted-Advances now context prepared (active c voting n) = ground arith
  mark_promoted-Advances now context prepared (active c (joining o) n) = ground arith

  renew-Advances :
      (now : ℕ) (context : AuthorityContext) (until : ℕ) (s : State raft)
      → Advances s (renew now context until s).0
  unfolding renew
  renew-Advances now context until (quarantined ready) = tt
  renew-Advances now context until sealed = refl
  renew-Advances now context until (active c voting n) =
      ground (arith, (equal_iff AuthorityContext-discrete c context).0)
  renew-Advances now context until (active c (joining o) n) = ground arith

  seal_expired-Advances : (now : ℕ) (s : State raft) → Advances s (seal_expired now s)
  unfolding seal_expired
  seal_expired-Advances now (quarantined ready) = tt
  seal_expired-Advances now sealed = refl
  seal_expired-Advances now (active c g n) = ground (arith, Matures-refl g)

  seal-Advances : (s : State raft) → Advances s (seal s).0
  unfolding seal
  seal-Advances (quarantined ready) = tt
  seal-Advances sealed = refl
  seal-Advances (active c g n) = tt

  call-Advances : (now : ℕ) (c : Call raft) (s : State raft) → Advances s (call now c s)
  unfolding call current
  call-Advances now (admits context until) s = admit-Advances now context until s
  call-Advances now (joins context prepared until) s = join-Advances now context prepared until s
  call-Advances now (promotes context prepared) s = mark_promoted-Advances now context prepared s
  call-Advances now (renews context until) s = renew-Advances now context until s
  call-Advances now asks s = seal_expired-Advances now s
  call-Advances now seals s = seal-Advances s

  -- Over any calls at any times, sealed authority stays sealed; and authority that is held keeps its
  -- context, never gets an earlier deadline, never goes back from voting to joining or from one join to
  -- another, and ends only by being sealed.
  pub calls-Advances : (cs : List (ℕ × Call raft)) (s : State raft) → Advances s (calls cs s)
  unfolding calls
  calls-Advances [] s = Advances-refl s
  calls-Advances ((now, c) ∷ cs) s =
      Advances-trans s (call now c s) _ (call-Advances now c s) (calls-Advances cs (call now c s))

  call-expired :
      (now : ℕ) (c : Call raft) (context : AuthorityContext) (stage : Stage raft) (until : ℕ)
      → until ≤ now
      → call now c (active context stage until) ≡ sealed
  unfolding call admit join mark_promoted renew current seal seal_expired
  call-expired now c context stage until le = ground arith

  -- Once a call reads a time at or after the deadline, whatever the call and whatever calls follow,
  -- there is no authority again: it is not held, admitted, joined, promoted or renewed.
  pub expiry_is_final :
      (now later : ℕ) (c : Call raft) (cs : List (ℕ × Call raft)) (context other : AuthorityContext)
      (stage : Stage raft) (until next : ℕ) (prepared : raft.LogId)
      → until ≤ now
      → let s = calls ((now, c) ∷ cs) (active context stage until) in
        ((current later s).1 ≡ none)
        × (((admit later other next s).1 ≡ false)
            × (((join later other prepared next s).1 ≡ false)
                × (((mark_promoted later other prepared s).1 ≡ false)
                    × ((renew later other next s).1 ≡ false))))
  unfolding calls current admit join mark_promoted renew seal_expired
  expiry_is_final now later c cs context other stage until next prepared le =
      rw (call-expired now c context stage until le, calls-Advances cs sealed)
        (refl, (refl, (refl, (refl, refl))))

-- Whose authority a call asks for, where it can start one.
abbrev pub starts : {raft : OpenRaft} → Call raft → Option AuthorityContext
starts (admits context until) = some context
starts (joins context prepared until) = some context
starts (promotes context prepared) = none
starts (renews context until) = none
starts asks = none
starts seals = none

module _ {raft : OpenRaft} where
  -- One of the calls asked for this authority when the quarantine was over.
  abbrev pub IsStarted : ℕ → AuthorityContext → List (ℕ × Call raft) → Type 0
  IsStarted ready context [] = ⊥
  IsStarted ready context ((now, c) ∷ cs) =
      ((starts c ≡ some context) × (ready ≤ now)) ⊎ IsStarted ready context cs

  -- Calls on authority for this context that leave authority leave it for the same context.
  calls-same-context :
      (cs : List (ℕ × Call raft)) (c d : AuthorityContext) (g e : Stage raft) (n m : ℕ)
      → calls cs (active c g n) ≡ active d e m
      → d ≡ c
  calls-same-context cs c d g e n m h =
      (subst (Extends c g n) h (calls-Advances cs (active c g n))).0

  after_start :
      (b : Bool) (cs : List (ℕ × Call raft)) (ready : ℕ) (c d : AuthorityContext) (g e : Stage raft)
      (n m : ℕ)
      → calls cs
          (if◌then◌else◌ {A = State raft × Bool} b
            (active c g n, true)
            (quarantined ready, false)).0
        ≡ active d e m
      → ((b ≡ true) × (some c ≡ some d)) ⊎ (calls cs (quarantined ready) ≡ active d e m)
  after_start true cs ready c d g e n m h =
      inl (refl, ap some (sym (calls-same-context cs c d g e n m h)))
  after_start false cs ready c d g e n m h = inr h

  calls-IsStarted :
      (cs : List (ℕ × Call raft)) (ready : ℕ) (d : AuthorityContext) (e : Stage raft) (m : ℕ)
      → calls cs (quarantined ready) ≡ active d e m
      → IsStarted ready d cs
  unfolding calls call admit join mark_promoted renew current seal seal_expired
  calls-IsStarted [] ready d e m h = ground arith
  calls-IsStarted ((now, admits context until) ∷ cs) ready d e m h =
      elim (after_start (may_start now ready until) cs ready context d voting e until m h) [
        | inl (go, same) ↦ inl (same, ground arith)
        | inr rest ↦ inr (calls-IsStarted cs ready d e m rest)
      ]
  calls-IsStarted ((now, joins context prepared until) ∷ cs) ready d e m h =
      elim (after_start (may_start now ready until) cs ready context d (joining prepared) e until m
        h) [
          | inl (go, same) ↦ inl (same, ground arith)
          | inr rest ↦ inr (calls-IsStarted cs ready d e m rest)
        ]
  calls-IsStarted ((now, promotes context prepared) ∷ cs) ready d e m h =
      inr (calls-IsStarted cs ready d e m h)
  calls-IsStarted ((now, renews context until) ∷ cs) ready d e m h =
      inr (calls-IsStarted cs ready d e m h)
  calls-IsStarted ((now, asks) ∷ cs) ready d e m h = inr (calls-IsStarted cs ready d e m h)
  calls-IsStarted ((now, seals) ∷ cs) ready d e m h = ground (arith, calls-Advances cs sealed)

  current-held :
      (now : ℕ) (s : State raft) (context : AuthorityContext) (until : ℕ)
      → (current now s).1 ≡ some (context, until)
      → (now < until) × ((stage : Stage raft) × (s ≡ active context stage until))
  unfolding current seal_expired
  current-held now sealed context until h = ground arith
  current-held now (quarantined ready) context until h = ground arith
  current-held now (active c g n) context until h = elim (Bool-cases (leb n now)) [
    | inl late ↦ ground arith
    | inr live ↦ (ground arith, (g, ground arith))
  ]

  -- A process that starts in quarantine: after any calls at any times, the authority that it finds has
  -- not expired, and an admission or a join for exactly that context was asked for when the quarantine
  -- was over.
  pub current-IsStarted :
      (cs : List (ℕ × Call raft)) (ready now : ℕ) (context : AuthorityContext) (until : ℕ)
      → (current now (calls cs (quarantined ready))).1 ≡ some (context, until)
      → (now < until) × IsStarted ready context cs
  current-IsStarted cs ready now context until h =
      let (lt, (stage, e)) = current-held now (calls cs (quarantined ready)) context until h in
      (lt, calls-IsStarted cs ready context stage until e)
