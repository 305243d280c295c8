-- ===== src/Admission/Examples.antt =====
-- Instances of the theorems on lifetimes and on authority.
mod Grants
use keep_afloat_d.Prelude.{
  ℕ, ◌+◌, ◌≤◌, ◌<◌, ◌≡◌, refl, inl, true, false, none, some, List, [], ◌∷◌, ok, arith, ℕ_discrete,
}
use keep_afloat_d.Admission.Duration.{millis, seconds}
use keep_afloat_d.Admission.Timing.{
  LeaseTiming, TimingInputs, new_timing, probe_cadence, for_config, cleanup_budget, election_budget,
  round_budget, recovery_budget, deadline, consumer_deadline, reservation_deadline,
  quarantine_deadline, vip_activation_deadline,
}
use keep_afloat_d.Admission.Timing.Rates.{
  IsLease, IsSized, AreSteady, for_config-IsSized, quarantine_outlives, activation_outlives,
}
use keep_afloat_d.Admission.Permission.{
  AuthorityContext, AuthorityContext-discrete, voting, joining, State, quarantined, active, Call,
  admits, joins, promotes, renews, asks, seals, seal_expired, admit, join, mark_promoted, renew,
  current, seal, call, calls,
}
use keep_afloat_d.Admission.Permission.History.{
  Advances, IsStarted, calls-Advances, expiry_is_final, current-IsStarted,
}
use keep_afloat_d.Store.Examples.{engine}

-- Three peers, probes each half second, and two VIPs.
abbrev inputs : TimingInputs
inputs = record {
  interval_ms = 500;
  stale_missed_probes = 3;
  election_timeout_min_ms = 500;
  election_timeout_max_ms = 1000;
  heartbeat_interval_ms = 150;
  peers = 3;
  vip_count = 2;
}

abbrev sized : LeaseTiming
sized = record {
  consumer_use = 17491666648;
  issuer_reservation = 34983333296;
  restart_quarantine = 69966666592;
  vip_activation_delay = 83483333296;
  rpc_budget = 291666666;
  renewal_interval = 437500000;
  renewal_round_budget = 2041666662;
}

for_config-IsSized_example : IsSized inputs sized
unfolding for_config new_timing probe_cadence cleanup_budget election_budget round_budget
    recovery_budget
for_config-IsSized_example = for_config-IsSized inputs sized computed
  where
    computed : for_config inputs ≡ ok sized
    computed = refl

-- One clock that all nodes share.
abbrev shared : ℕ → ℕ → ℕ
shared x t = t

shared-AreSteady : AreSteady shared
shared-AreSteady = record { monotone = λ x a b le. le; rate = λ x y a b le. omega arith }

abbrev lease : LeaseTiming
lease = record {
  consumer_use = 10;
  issuer_reservation = 20;
  restart_quarantine = 40;
  vip_activation_delay = 26;
  rpc_budget = 1;
  renewal_interval = 2;
  renewal_round_budget = 10;
}

lease-IsLease : IsLease lease 3
lease-IsLease = record {
  positive = omega arith;
  reservation = refl;
  quarantine = refl;
  activation = refl;
}

quarantine_outlives_example : (110 ≤ shared 1 160) × (121 ≤ shared 2 160)
unfolding consumer_deadline reservation_deadline quarantine_deadline deadline
quarantine_outlives_example =
    quarantine_outlives shared lease 3 1000 1 2 3 100 101 120 160 110 121 160 shared-AreSteady
      lease-IsLease (omega arith) (omega arith) (omega arith) refl refl refl (omega arith)

activation_outlives_example : 110 + 3 ≤ shared 1 127
unfolding consumer_deadline vip_activation_deadline deadline
activation_outlives_example =
    activation_outlives shared lease 3 1000 1 2 100 101 127 110 127 shared-AreSteady lease-IsLease
      (omega arith) (omega arith) refl refl (omega arith)

abbrev authority : AuthorityContext
authority = record {
  boot_nonce = 1;
  cluster_epoch = 2;
  genesis_digest = 3;
  admission_generation = 1;
}

-- A learner that joins too early, joins, is promoted and renews.
abbrev joined : List (ℕ × Call engine)
joined =
    (5, joins authority (1, 3) 20)
    ∷ (12, joins authority (1, 3) 20)
    ∷ (14, promotes authority (1, 3))
    ∷ (15, renews authority 30)
    ∷ []

abbrev joining_now : State engine
joining_now = active authority (joining (1, 3)) 20

calls-Advances_example : Advances joining_now (calls joined joining_now)
calls-Advances_example = calls-Advances joined joining_now

current_finds : (current 25 (calls joined (quarantined 10))).1 ≡ some (authority, 30)
unfolding calls call admit join mark_promoted renew current seal seal_expired
    AuthorityContext-discrete ℕ_discrete
current_finds = refl

current-IsStarted_example : (25 < 30) × IsStarted 10 authority joined
current-IsStarted_example = current-IsStarted joined 10 25 authority 30 current_finds

abbrev voted : State engine
voted = active authority voting 20

-- After a call that comes too late, then others.
abbrev late : State engine
late = calls ((20, asks) ∷ joined) voted

expiry_is_final_example :
    ((current 21 late).1 ≡ none)
    × (((admit 21 authority 40 late).1 ≡ false)
        × (((join 21 authority (1, 3) 40 late).1 ≡ false)
            × (((mark_promoted 21 authority (1, 3) late).1 ≡ false)
                × ((renew 21 authority 40 late).1 ≡ false))))
expiry_is_final_example =
    expiry_is_final 20 21 asks joined authority authority voting 20 40 (1, 3) (omega arith)
