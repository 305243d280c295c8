-- ===== src/Admission/Controller/Complete/Quorum.antt =====
-- A completed round of src/raft/admission/controller.rs has the grants of a physical majority.
use keep_afloat_d.Prelude.{
  ℕ, ◌+◌, ◌/◌, ◌<◌, ◌≡◌, refl, sym, ap, true, false, not, ◌&&◌, ◌||◌, Option, List, [], ◌∷◌, map,
  All, length, leb, same, equal, equal_iff, nat_ord, nat_refl, nat_eq, Result, ok, err, and_then,
  and_then-eq-ok, unless-eq-ok, refuses-eq-ok, arith,
}
use keep_afloat_d.BTreeSet
use keep_afloat_d.BTreeSet.{BTreeSet}
use keep_afloat_d.BTreeSet.Laws.{contains-insert}
use keep_afloat_d.BTreeSet.Distinct.{IsDistinct}
use keep_afloat_d.BTreeSet.Counting.{IsSubset, IsSubset-overlap, length-insert}
use keep_afloat_d.Identity.{ReplicaId, replica_ord, Voters-discrete, AdmissionDenied}
use keep_afloat_d.Store.OpenRaft.{OpenRaft}
use keep_afloat_d.Admission.Record.{Crypto, verify}
use keep_afloat_d.Admission.Controller.{
  cold, AdmissionRequest, AdmissionRequest-discrete, AdmissionRound, AdmissionController,
}
use keep_afloat_d.Admission.Controller.Complete.{
  ReceivedGrant, VerifiedAdmission, is_foreign, is_cold, finish, collect_grants, check_quorum,
  complete, lacks_evidence,
}

module _ {raft : OpenRaft} where
  -- The configured members that sent the grants, and their boots.
  abbrev pub issuers : List (ReceivedGrant raft) → List ℕ
  issuers = map (λ (g : ReceivedGrant raft). g.signed.sender.physical_id)

  abbrev pub boots : List (ReceivedGrant raft) → List ReplicaId
  boots = map (λ (g : ReceivedGrant raft). g.signed.sender)

module _ {raft : OpenRaft} (crypto : Crypto) (encode : ℕ → AdmissionRequest raft → Option (List ℕ))
    (controller : AdmissionController) (request : AdmissionRequest raft) where
  -- A grant of exactly this request, whose signature holds, from a configured member.
  pub record IsGrant (g : ReceivedGrant raft) : Type 0 where
    pub verified :
        verify crypto encode controller.cluster_secret g.signed 11 g.issuer controller.replica
          g.binding
        ≡ ok tt
    pub exact : g.signed.payload ≡ request
    pub configured : BTreeSet.contains controller.configured g.signed.sender.physical_id ≡ true

  -- What the loop has found, from the issuers before these grants to those after them.
  record Collects (grants : List (ReceivedGrant raft)) (p q : BTreeSet ℕ) (x y : BTreeSet ReplicaId)
      : Type 0 where
    each : All IsGrant grants
    distinct : IsDistinct (issuers grants)
    fresh : (n : ℕ) → BTreeSet.contains p n ≡ true → BTreeSet.contains (issuers grants) n ≡ false
    counted : length q ≡ length p + length grants
    union :
        (b : ReplicaId)
        → BTreeSet.contains y b ≡ (BTreeSet.contains x b || BTreeSet.contains (boots grants) b)

  is_foreign-IsGrant :
      (p : BTreeSet ℕ) (g : ReceivedGrant raft)
      → verify crypto encode controller.cluster_secret g.signed 11 g.issuer controller.replica
          g.binding
        ≡ ok tt
      → is_foreign controller request p g ≡ false
      → IsGrant g × (BTreeSet.contains p g.signed.sender.physical_id ≡ false)
  is_foreign-IsGrant p g v h =
      let t = equal_iff (AdmissionRequest-discrete raft) g.signed.payload request in
      (record { verified = v; exact = ground arith; configured = ground arith }, ground arith)

  Collects-cons :
      (g : ReceivedGrant raft) (grants : List (ReceivedGrant raft)) (p q : BTreeSet ℕ)
      (x y : BTreeSet ReplicaId)
      → IsGrant g
      → BTreeSet.contains p g.signed.sender.physical_id ≡ false
      → Collects grants
          (BTreeSet.insert p g.signed.sender.physical_id)
          q
          (BTreeSet.insert x g.signed.sender)
          y
      → Collects (g ∷ grants) p q x y
  unfolding BTreeSet.contains
  Collects-cons g grants p q x y grant new rest =
      let n = g.signed.sender.physical_id in
      record {
        each = (grant, rest.each);
        distinct =
            (rest.fresh n (ground (arith, contains-insert p n n, nat_refl n)), rest.distinct);
        fresh = λ m e. ground (arith, contains-insert p n m, rest.fresh m, nat_eq m n);
        counted = ground (arith, length-insert p n new, rest.counted);
        union = λ b. ground (arith, rest.union b, contains-insert x g.signed.sender b);
      }

  collect_grants-Collects :
      (grants : List (ReceivedGrant raft)) (p : BTreeSet ℕ) (x : BTreeSet ReplicaId)
      (r : BTreeSet ℕ × BTreeSet ReplicaId)
      → collect_grants crypto encode controller request grants p x ≡ ok r
      → Collects grants p r.0 x r.1
  unfolding collect_grants BTreeSet.contains
  collect_grants-Collects [] p x r h = record {
    each = tt;
    distinct = tt;
    fresh = λ n e. refl;
    counted = ground arith;
    union = λ b. ground arith;
  }
  collect_grants-Collects (g ∷ grants) p x r h =
      let n = g.signed.sender.physical_id in
      let (_, v, h1) =
        and_then-eq-ok
          (verify crypto encode controller.cluster_secret g.signed 11 g.issuer controller.replica
            g.binding)
          _ h in
      let (local, h2) = unless-eq-ok (is_foreign controller request p g) _ _ h1 in
      let (grant, new) = is_foreign-IsGrant p g v local in
      Collects-cons g grants p r.0 x r.1 grant new (
        collect_grants-Collects grants (BTreeSet.insert p n) (BTreeSet.insert x g.signed.sender) r
          h2)

  -- Where the round is completed: the signed grants of exactly its request by distinct configured
  -- members, more than half of those configured, and for a cold start by every boot of its genesis.
  pub record IsQuorum (grants : List (ReceivedGrant raft)) : Type 0 where
    pub each : All IsGrant grants
    pub distinct : IsDistinct (issuers grants)
    pub majority : length controller.configured / 2 < length grants
    pub cohort :
        request.mode ≡ cold
        → (b : ReplicaId)
        → BTreeSet.contains request.genesis.voters b ≡ BTreeSet.contains (boots grants) b

  check_quorum-IsQuorum :
      (grants : List (ReceivedGrant raft)) (r : BTreeSet ℕ × BTreeSet ReplicaId)
      → Collects grants [] r.0 [] r.1
      → check_quorum controller request r ≡ ok tt
      → IsQuorum grants
  unfolding BTreeSet.contains
  check_quorum-IsQuorum grants r c h =
      let (many, h1) = unless-eq-ok (leb (length r.0) (length controller.configured / 2)) _ _ h in
      let (same, _) =
        unless-eq-ok
          (is_cold request.mode && not (equal Voters-discrete r.1 request.genesis.voters)) _ _ h1 in
      record {
        each = c.each;
        distinct = c.distinct;
        majority = ground (arith, c.counted);
        cohort = λ e b.
            let cold = ap is_cold e in
            let voters = (equal_iff Voters-discrete r.1 request.genesis.voters).0 (ground arith) in
            rw (sym voters) (ground (arith, c.union b));
      }

  issuers-IsSubset :
      (grants : List (ReceivedGrant raft))
      → All IsGrant grants
      → IsSubset (issuers grants) controller.configured
  unfolding BTreeSet.contains
  issuers-IsSubset [] each n h = ground arith
  issuers-IsSubset (g ∷ grants) each n h = ground (
    arith,
    issuers-IsSubset grants each.1 n,
    each.0.configured,
    nat_eq n g.signed.sender.physical_id,
  )

module _ {raft : OpenRaft} where
  finish-eq-ok :
      (controller : AdmissionController) (round : AdmissionRound raft)
      (m : Result (Unit {0}) AdmissionDenied) (v : VerifiedAdmission raft)
      → (finish controller round m).1 ≡ ok v
      → (m ≡ ok tt) × (v.context.genesis ≡ round.request.genesis) × (v.deadline ≡ round.deadline)
  finish-eq-ok controller round (err e) v h = cc
  finish-eq-ok controller round (ok x) v h = (refl, ground arith, ground arith)

  length-issuers : (grants : List (ReceivedGrant raft)) → length (issuers grants) ≡ length grants
  length-issuers [] = refl
  length-issuers (g ∷ grants) = ground (arith, length-issuers grants)

module _ {raft : OpenRaft} (crypto : Crypto)
    (encode : ℕ → AdmissionRequest raft → Option (List ℕ)) where
  -- A round of this controller that the grants complete at this time.
  pub record Completes (now : ℕ) (grants : List (ReceivedGrant raft))
      (controller : AdmissionController) (round after : AdmissionRound raft)
      (v : VerifiedAdmission raft) : Type 0 where
    pub quorum : IsQuorum crypto encode controller round.request grants
    pub first : round.completed ≡ false
    pub timely : now < round.deadline
    pub mine : round.request.consumer ≡ controller.replica
    pub consumed : after.completed ≡ true
    pub genesis : v.context.genesis ≡ round.request.genesis
    pub deadline : v.deadline ≡ round.deadline

  -- `complete` succeeds only before the round's deadline, for a round of this boot that was not
  -- completed before, with signed grants of exactly its request from distinct configured members, more
  -- than half of them, and from every boot of a cold genesis; it consumes the round.
  pub complete-Completes :
      (now : ℕ) (grants : List (ReceivedGrant raft)) (controller : AdmissionController)
      (round : AdmissionRound raft) (v : VerifiedAdmission raft)
      → (complete crypto encode now grants controller round).1 ≡ ok v
      → Completes now grants controller round
          (complete crypto encode now grants controller round).0
          v
  unfolding complete
  complete-Completes now grants controller round v h =
      let spent = round.completed || leb round.deadline now in
      let foreign = not (same round.request.consumer controller.replica) in
      let counts =
        and_then (collect_grants crypto encode controller round.request grants [] [])
          (check_quorum controller round.request) in
      let (evident, h1) = refuses-eq-ok (lacks_evidence round.request.mode) round _ _ _ h in
      let (live, h2) = refuses-eq-ok spent _ _ _ _ h1 in
      let (mine, h3) = refuses-eq-ok foreign _ _ _ _ h2 in
      let (enough, context, deadline) = finish-eq-ok controller round counts v h3 in
      let (r, found, h4) =
        and_then-eq-ok (collect_grants crypto encode controller round.request grants [] []) _
          enough in
      let collected =
        collect_grants-Collects crypto encode controller round.request grants [] [] r found in
      record {
        quorum = check_quorum-IsQuorum crypto encode controller round.request grants r collected h4;
        first = ground arith;
        timely = ground arith;
        mine = ground (arith, replica_ord.eq_of_cmp round.request.consumer controller.replica);
        consumed = rw (complete, evident, live, mine, enough) refl;
        genesis = context;
        deadline = deadline;
      }

  -- Two completed rounds, of whatever boots and geneses, of controllers with the same configured
  -- members: some configured member granted both.
  pub complete-overlap :
      (now later : ℕ) (grants others : List (ReceivedGrant raft)) (a b : AdmissionController)
      (round next : AdmissionRound raft) (v w : VerifiedAdmission raft)
      → a.configured ≡ b.configured
      → (complete crypto encode now grants a round).1 ≡ ok v
      → (complete crypto encode later others b next).1 ≡ ok w
      → (n : ℕ) × ((BTreeSet.contains (issuers grants) n ≡ true)
          × (BTreeSet.contains (issuers others) n ≡ true))
  complete-overlap now later grants others a b round next v w e hv hw =
      let p = (complete-Completes now grants a round v hv).quorum in
      let q = (complete-Completes later others b next w hw).quorum in
      IsSubset-overlap (issuers grants) (issuers others) a.configured p.distinct q.distinct
        (issuers-IsSubset crypto encode a round.request grants p.each)
        (rw e (issuers-IsSubset crypto encode b next.request others q.each))
        (ground (
          arith,
          p.majority,
          q.majority,
          length-issuers grants,
          length-issuers others,
          ap length e,
        ))
