-- ===== src/Admission/Controller/Reserve/Hold.antt =====
-- A reservation of an issuer holds: it is neither given to another genesis nor shortened while it runs
-- (`reserve` of src/raft/admission/controller.rs).
use keep_afloat_d.Prelude.{
  ℕ, ◌≤◌, ◌<◌, ◌≡◌, refl, sym, subst, nat_ord, Bool-cases, false, not, Option, none, some, List, [],
  ◌∷◌, All, leb, ltb, equal_iff, Result, ok, err, ok_or, and_then-eq-ok, unless-eq-ok,
  refuses-eq-ok, Result-cases, inl, inr, arith,
}
use keep_afloat_d.BTreeSet
use keep_afloat_d.Identity.{Genesis, Genesis-discrete, AdmissionDenied, ReplicaId}
use keep_afloat_d.Store.OpenRaft.{OpenRaft}
use keep_afloat_d.Store.State.{KafStorageState}
use keep_afloat_d.Admission.Record.{
  Crypto, SignedAdmission, verify, sign, sign_admission_record, or_denied,
}
use keep_afloat_d.Admission.Controller.{
  AdmissionRequest, Reservation, AdmissionController, validate_genesis,
}
use keep_afloat_d.Admission.Controller.Reserve.{
  is_reserved_for_other, extended, check_request, reserve_until, reserve,
}

-- The reservation is for this genesis, and runs at least until then.
abbrev pub Holds : Option Reservation → Genesis → ℕ → Type 0
Holds none genesis until = ⊥
Holds (some r) genesis until = (r.genesis ≡ genesis) × (until ≤ r.until)

extended-Holds :
    (o : Option Reservation) (genesis : Genesis) (now new until : ℕ) (held : Genesis)
    → is_reserved_for_other o now genesis ≡ false
    → Holds o held until
    → now < until
    → (genesis ≡ held) × (until ≤ extended o genesis new)
extended-Holds none genesis now new until held f h lt = absurd h
extended-Holds (some r) genesis now new until held f h lt =
    ground (arith, (equal_iff Genesis-discrete r.genesis genesis))

-- A call of `reserve`.
pub record ReserveCall (raft : OpenRaft) : Type 0 where
  pub now : ℕ
  pub checked : ℕ
  pub signed : SignedAdmission (AdmissionRequest raft)
  pub binding : ℕ
  pub state : Option (KafStorageState raft)

module _ {raft : OpenRaft} (crypto : Crypto)
    (encode : ℕ → AdmissionRequest raft → Option (List ℕ)) where
  abbrev pub reserve_call :
      ReserveCall raft
      → AdmissionController
      → AdmissionController × Result (SignedAdmission (AdmissionRequest raft)) AdmissionDenied
  reserve_call c = reserve crypto encode c.now c.checked c.signed c.binding c.state

  -- The controller after the calls, the earliest first.
  unfoldable pub reserves : List (ReserveCall raft) → AdmissionController → AdmissionController
  unfolding reserve
  reserves [] controller = controller
  reserves (c ∷ cs) controller = reserves cs (reserve_call c controller).0

  check_request-free :
      (now checked : ℕ) (signed : SignedAdmission (AdmissionRequest raft)) (binding : ℕ)
      (state : Option (KafStorageState raft)) (controller : AdmissionController)
      → check_request crypto encode now checked signed binding state controller ≡ ok tt
      → is_reserved_for_other controller.reservation now signed.payload.genesis ≡ false
  unfolding check_request
  check_request-free now checked signed binding state controller h =
      let (_, _, h1) =
        and_then-eq-ok
          (verify crypto encode controller.cluster_secret signed 10 signed.payload.consumer
            controller.replica binding)
          _ h in
      let (_, _, h2) = and_then-eq-ok (validate_genesis controller signed.payload.genesis) _ h1 in
      let (_, h3) =
        unless-eq-ok
          (not (BTreeSet.contains controller.configured signed.payload.consumer.physical_id)) _ _
          h2 in
      let (_, h4) = unless-eq-ok (ltb now controller.quarantine_until) _ _ h3 in
      (unless-eq-ok (is_reserved_for_other controller.reservation now signed.payload.genesis) _ _
        h4).0

  sign-payload :
      (secret : Option (List ℕ)) (role : ℕ) (sender recipient : ReplicaId) (binding : ℕ)
      (payload : AdmissionRequest raft) (grant : SignedAdmission (AdmissionRequest raft))
      → sign crypto encode secret role sender recipient binding payload ≡ ok grant
      → grant.payload ≡ payload
  unfolding sign
  sign-payload secret role sender recipient binding payload grant h =
      let (bytes, _, h1) =
        and_then-eq-ok (ok_or (encode binding payload) "admission record encoding failed") _ h in
      let (tag, _, h2) =
        and_then-eq-ok
          (or_denied (sign_admission_record crypto secret role sender recipient bytes)
            "admission record signing failed")
          _ h1 in
      ground arith

  reserve_until-Holds :
      (now : ℕ) (request : AdmissionRequest raft) (binding : ℕ) (controller : AdmissionController)
      (m : Result ℕ AdmissionDenied) (held : Genesis) (until : ℕ)
      → is_reserved_for_other controller.reservation now request.genesis ≡ false
      → now < until
      → Holds controller.reservation held until
      → Holds
          (reserve_until crypto encode now request binding controller m).0.reservation
          held
          until
  reserve_until-Holds now request binding controller (err e) held until f lt h = h
  reserve_until-Holds now request binding controller (ok new) held until f lt h =
      elim (Bool-cases (leb new now)) [
        | inl late ↦ rw late h
        | inr live ↦
            rw live
              (extended-Holds controller.reservation request.genesis now new until held f h lt)
      ]

  -- A call that reads a time at which the reservation runs leaves it running.
  reserve-Holds :
      (c : ReserveCall raft) (controller : AdmissionController) (held : Genesis) (until : ℕ)
      → c.now < until
      → Holds controller.reservation held until
      → Holds (reserve_call c controller).0.reservation held until
  unfolding reserve
  reserve-Holds c controller held until lt h =
      elim (Result-cases
        (check_request crypto encode c.now c.checked c.signed c.binding c.state controller)) [
          | inl (e, refused) ↦ rw (refused, reserve) h
          | inr (_, passed) ↦
              rw (passed, reserve)
                (reserve_until-Holds c.now c.signed.payload c.binding controller
                  (controller.timing.reservation_deadline c.now) held until
                  (check_request-free c.now c.checked c.signed c.binding c.state controller passed)
                  lt h)
        ]

  reserves-Holds :
      (cs : List (ReserveCall raft)) (controller : AdmissionController) (held : Genesis) (until : ℕ)
      → All (λ (c : ReserveCall raft). c.now < until) cs
      → Holds controller.reservation held until
      → Holds (reserves cs controller).reservation held until
  unfolding reserves
  reserves-Holds [] controller held until early h = h
  reserves-Holds (c ∷ cs) controller held until early h =
      reserves-Holds cs (reserve_call c controller).0 held until early.1
        (reserve-Holds c controller held until early.0 h)

  -- An answer is the request, reserved.
  extended-new :
      (o : Option Reservation) (genesis : Genesis) (new : ℕ) → new ≤ extended o genesis new
  extended-new o genesis new = ground arith

  reserve_until-granted :
      (now : ℕ) (request : AdmissionRequest raft) (binding : ℕ) (controller : AdmissionController)
      (until : ℕ) (grant : SignedAdmission (AdmissionRequest raft))
      → (reserve_until crypto encode now request binding controller (ok until)).1 ≡ ok grant
      → (grant.payload ≡ request)
        × Holds
            (reserve_until crypto encode now request binding controller (ok until)).0.reservation
            request.genesis
            until
  reserve_until-granted now request binding controller until grant h =
      let (live, h1) = refuses-eq-ok (leb until now) controller _ _ _ h in
      (
        sign-payload controller.cluster_secret 11 controller.replica request.consumer binding
            request grant h1,
        rw live (refl, extended-new controller.reservation request.genesis until),
      )

  -- What a grant shows of the controller before and after it.
  abbrev IsAnswer :
      ReserveCall raft → AdmissionController → SignedAdmission (AdmissionRequest raft) → Type 0
  IsAnswer c controller grant =
      (until : ℕ) × (controller.timing.reservation_deadline c.now ≡ ok until)
      × (grant.payload ≡ c.signed.payload)
      × Holds (reserve_call c controller).0.reservation c.signed.payload.genesis until
      × (is_reserved_for_other controller.reservation c.now c.signed.payload.genesis ≡ false)

  reserve_call-IsAnswer :
      (c : ReserveCall raft) (controller : AdmissionController)
      (grant : SignedAdmission (AdmissionRequest raft))
      → (reserve_call c controller).1 ≡ ok grant
      → IsAnswer c controller grant
  unfolding reserve
  reserve_call-IsAnswer c controller grant h =
      let m = check_request crypto encode c.now c.checked c.signed c.binding c.state controller in
      elim (Result-cases m) [
        | inl (e, refused) ↦ let h1 : err e ≡ ok grant = rw (sym h, reserve, refused) refl in cc
        | inr (_, passed) ↦ elim (Result-cases (controller.timing.reservation_deadline c.now)) [
          | inl (e, late) ↦ let h1 : err e ≡ ok grant = rw (sym h, reserve, passed, late) refl in cc
          | inr (until, deadline) ↦
              let run =
                reserve_until crypto encode c.now c.signed.payload c.binding controller
                  (ok until) in
              let h1 : run.1 ≡ ok grant = rw (sym h, reserve, passed, deadline) refl in
              let (same, held) =
                reserve_until-granted c.now c.signed.payload c.binding controller until grant h1 in
              let free =
                check_request-free c.now c.checked c.signed c.binding c.state controller passed in
              (until, deadline, same, rw (passed, reserve, deadline) held, free)
        ]
      ]

  -- Between a grant and the end of the reservation that it made, by the clock of the issuer, no other
  -- genesis is granted: an issuer that answers one call, then takes any calls, and answers a last one,
  -- all of which read times before the deadline of a reservation at the first call's time, answers the
  -- last one for the genesis of the first.
  pub granted-one_genesis :
      (a b : ReserveCall raft) (cs : List (ReserveCall raft)) (controller : AdmissionController)
      (grant other : SignedAdmission (AdmissionRequest raft)) (until : ℕ)
      → (reserve_call a controller).1 ≡ ok grant
      → controller.timing.reservation_deadline a.now ≡ ok until
      → All (λ (c : ReserveCall raft). c.now < until) cs
      → b.now < until
      → (reserve_call b (reserves cs (reserve_call a controller).0)).1 ≡ ok other
      → other.payload.genesis ≡ grant.payload.genesis
  granted-one_genesis a b cs controller grant other until ha ht early lt hb =
      let (new, et, pa, made, _) = reserve_call-IsAnswer a controller grant ha in
      let before = reserves cs (reserve_call a controller).0 in
      let (_, _, pb, _, free) = reserve_call-IsAnswer b before other hb in
      let e : new ≡ until = cc in
      let genesis = a.signed.payload.genesis in
      let held =
        reserves-Holds cs (reserve_call a controller).0 genesis until early
          (subst (Holds (reserve_call a controller).0.reservation genesis) e made) in
      let same =
        extended-Holds before.reservation b.signed.payload.genesis b.now 0 until genesis free held
          lt in
      rw (pa, pb) same.0
