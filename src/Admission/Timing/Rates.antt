-- ===== src/Admission/Timing/Rates.antt =====
-- The lifetimes of src/runtime_permission/timing.rs under clocks whose rates differ by at most the
-- supported ratio.
use keep_afloat_d.Prelude.{
  ℕ, ◌+◌, ◌-◌, ◌*◌, ◌/◌, ◌≤◌, ◌<◌, min, max, ◌≡◌, refl, subst, ok, and_then-eq-ok, arith,
}
use keep_afloat_d.Admission.Duration.{millis}
use keep_afloat_d.Admission.Timing.{
  LeaseTiming, new_timing, clock_rate_ratio, for_config, TimingInputs, probe_cadence, deadline,
  consumer_deadline, reservation_deadline, quarantine_deadline, vip_activation_deadline,
  election_budget, round_budget, recovery_budget, cleanup_budget,
}

-- The relations between the lifetimes.
pub record IsLease (t : LeaseTiming) (cleanup : ℕ) : Type 0 where
  pub positive : 0 < t.consumer_use
  pub reservation : t.issuer_reservation ≡ 2 * t.consumer_use
  pub quarantine : t.restart_quarantine ≡ 2 * t.issuer_reservation
  pub activation : t.vip_activation_delay ≡ 2 * (t.consumer_use + cleanup)

pub new_timing-IsLease :
    (consumer_use cleanup : ℕ) (t : LeaseTiming)
    → new_timing consumer_use cleanup ≡ ok t
    → IsLease t cleanup
unfolding new_timing
new_timing-IsLease consumer_use cleanup t h = ground arith

new_timing-consumer_use :
    (consumer_use cleanup : ℕ) (t : LeaseTiming)
    → new_timing consumer_use cleanup ≡ ok t
    → t.consumer_use ≡ consumer_use
unfolding new_timing
new_timing-consumer_use consumer_use cleanup t h = ground arith

-- What the lifetimes of a configuration leave room for.
pub record IsSized (c : TimingInputs) (t : LeaseTiming) : Type 0 where
  pub cleanup : ℕ
  pub election : ℕ
  pub cleanup-eq : cleanup_budget c.vip_count ≡ ok cleanup
  pub election-eq : election_budget c ≡ ok election
  pub lease : IsLease t cleanup
  pub health : probe_cadence c.interval_ms c.stale_missed_probes ≤ t.consumer_use
  pub rpc : t.rpc_budget ≤ millis 500
  pub round : t.renewal_round_budget ≡ t.rpc_budget * (c.peers + 4)
  pub recovery : 2 * election + 4 * t.renewal_round_budget + 2 * t.renewal_interval ≤ t.consumer_use

round_budget_lem :
    (rpc peers round : ℕ) → round_budget rpc peers ≡ ok round → round ≡ rpc * (peers + 4)
unfolding round_budget
round_budget_lem rpc peers round h = ground arith

recovery_budget_lem :
    (election round interval r : ℕ)
    → recovery_budget election round interval ≡ ok r
    → r ≡ 2 * election + 4 * round + 2 * interval
unfolding recovery_budget
recovery_budget_lem election round interval r h = ground arith

-- `for_config` after its last `?`.
abbrev with_budgets : LeaseTiming → ℕ → ℕ → ℕ → LeaseTiming
with_budgets timing rpc interval round = record timing {
  rpc_budget = rpc;
  renewal_interval = interval;
  renewal_round_budget = round;
}

with_budgets-IsSized :
    (c : TimingInputs) (timing : LeaseTiming) {window rpc cleanup election round recovery : ℕ}
    → window ≡ probe_cadence c.interval_ms c.stale_missed_probes
    → rpc ≤ millis 500
    → cleanup_budget c.vip_count ≡ ok cleanup
    → election_budget c ≡ ok election
    → round_budget rpc c.peers ≡ ok round
    → recovery_budget election round (window / 4) ≡ ok recovery
    → new_timing (max window recovery) cleanup ≡ ok timing
    → IsSized c (with_budgets timing rpc (window / 4) round)
with_budgets-IsSized c timing {window} {rpc} {cleanup} {election} {round} {recovery} w small e1 e2
      e3 e4 e5 =
    let base = new_timing-IsLease _ _ timing e5 in
    let used = new_timing-consumer_use _ _ timing e5 in
    let slots = round_budget_lem rpc c.peers round e3 in
    let sum = recovery_budget_lem election round (window / 4) recovery e4 in
    record {
      cleanup = cleanup;
      election = election;
      cleanup-eq = e1;
      election-eq = e2;
      lease = record {
        positive = base.positive;
        reservation = base.reservation;
        quarantine = base.quarantine;
        activation = base.activation;
      };
      health = omega arith;
      rpc = small;
      round = slots;
      recovery = omega arith;
    }

-- Where `LeaseTiming::for_config` succeeds, its lifetimes have the safe ratios, the consumer's covers
-- a health window and also two elections, four renewal rounds and two renewal intervals, and a round
-- has four calls of at most half a second more than the configuration has peers.
pub for_config-IsSized : (c : TimingInputs) (t : LeaseTiming) → for_config c ≡ ok t → IsSized c t
unfolding for_config
for_config-IsSized c t h =
    let window = probe_cadence c.interval_ms c.stale_missed_probes in
    let rpc = min (window / 6) (millis 500) in
    let (cleanup, e1, h1) = and_then-eq-ok (cleanup_budget c.vip_count) _ h in
    let (election, e2, h2) = and_then-eq-ok (election_budget c) _ h1 in
    let (round, e3, h3) = and_then-eq-ok (round_budget rpc c.peers) _ h2 in
    let (recovery, e4, h4) = and_then-eq-ok (recovery_budget election round (window / 4)) _ h3 in
    let (timing, e5, h5) = and_then-eq-ok (new_timing (max window recovery) cleanup) _ h4 in
    let e : with_budgets timing rpc (window / 4) round ≡ t = cc in
    subst (IsSized c) e (with_budgets-IsSized c timing refl (omega arith) e1 e2 e3 e4 e5)

-- Clocks of the nodes, as readings at points of true time: none runs back, and over any interval none
-- measures more than twice what another does.
pub record AreSteady (clock : ℕ → ℕ → ℕ) : Type 0 where
  pub monotone : (x a b : ℕ) → a ≤ b → clock x a ≤ clock x b
  pub rate :
      (x y a b : ℕ) → a ≤ b → clock x b - clock x a ≤ clock_rate_ratio * (clock y b - clock y a)

-- A consumer that asked at `asked` and an issuer that reserved no earlier: for as long as the
-- consumer's clock is before the consumer's deadline, the issuer's clock is before the deadline of its
-- reservation, whichever of the supported clocks they read.
pub reservation_outlives :
    (clock : ℕ → ℕ → ℕ) (t : LeaseTiming)
    (cleanup limit consumer issuer asked reserved now until held : ℕ)
    → AreSteady clock
    → IsLease t cleanup
    → asked ≤ reserved
    → reserved ≤ now
    → consumer_deadline limit t (clock consumer asked) ≡ ok until
    → reservation_deadline limit t (clock issuer reserved) ≡ ok held
    → clock consumer now < until
    → clock issuer now < held
unfolding consumer_deadline reservation_deadline deadline
reservation_outlives clock t cleanup limit consumer issuer asked reserved now until held s l p q eu
      eh lt =
    ground (
      arith,
      s.monotone consumer asked reserved p,
      s.monotone consumer reserved now q,
      s.monotone issuer reserved now q,
      s.rate issuer consumer reserved now q,
      l.positive,
      l.reservation,
    )

-- A node that starts again at `booted`, and a consumer whose lease an issuer reserved before that: when
-- the clock of the new boot is past its quarantine, the consumer's lease and the issuer's reservation
-- have both ended, each by its own clock.
pub quarantine_outlives :
    (clock : ℕ → ℕ → ℕ) (t : LeaseTiming)
    (cleanup limit consumer issuer restarted asked reserved booted now until held ready : ℕ)
    → AreSteady clock
    → IsLease t cleanup
    → asked ≤ reserved
    → reserved ≤ booted
    → booted ≤ now
    → consumer_deadline limit t (clock consumer asked) ≡ ok until
    → reservation_deadline limit t (clock issuer reserved) ≡ ok held
    → quarantine_deadline limit t (clock restarted booted) ≡ ok ready
    → ready ≤ clock restarted now
    → (until ≤ clock consumer now) × (held ≤ clock issuer now)
unfolding consumer_deadline reservation_deadline quarantine_deadline deadline
quarantine_outlives clock t cleanup limit consumer issuer restarted asked reserved booted now until
      held ready s l p q r eu eh eq le =
    (
      ground (
        arith,
        s.monotone consumer asked reserved p,
        s.monotone consumer reserved booted q,
        s.rate restarted consumer booted now r,
        l.reservation,
        l.quarantine,
      ),
      ground (
        arith,
        s.monotone issuer reserved booted q,
        s.rate restarted issuer booted now r,
        l.reservation,
        l.quarantine,
      ),
    )

-- A successor that is admitted after its predecessor has asked for its last lease: when the successor's
-- clock reaches the deadline before which it activates no address, the predecessor's clock is past the
-- end of its lease by the time that its cleanup may take.
pub activation_outlives :
    (clock : ℕ → ℕ → ℕ) (t : LeaseTiming)
    (cleanup limit predecessor successor asked admitted now until ready : ℕ)
    → AreSteady clock
    → IsLease t cleanup
    → asked ≤ admitted
    → admitted ≤ now
    → consumer_deadline limit t (clock predecessor asked) ≡ ok until
    → vip_activation_deadline limit t (clock successor admitted) ≡ ok ready
    → ready ≤ clock successor now
    → until + cleanup ≤ clock predecessor now
unfolding consumer_deadline vip_activation_deadline deadline
activation_outlives clock t cleanup limit predecessor successor asked admitted now until ready s l p
      q eu ea le =
    ground (
      arith,
      s.monotone predecessor asked admitted p,
      s.rate successor predecessor admitted now q,
      l.activation,
    )
