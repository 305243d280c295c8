-- ===== src/Freshness/Examples.antt =====
-- An instance of the theorem on permits.
use keep_afloat_d.Prelude.{ℕ, ◌+◌, ◌≡◌, refl, Bool, true, false, some, [], ◌∷◌, ltb, ok, arith}
use keep_afloat_d.Identity.{AdmissionContext, AdmissionSession, check_session}
use keep_afloat_d.Store.Examples.{engine, genesis, replica}
use keep_afloat_d.Freshness.{
  VerifiedProgress, ConsensusFreshness, Permit, check_progress, proof_deadline, is_fresh,
  invalidate, acquire, check_permit,
}
use keep_afloat_d.Freshness.Revocation.{reported, lost, run, invalidate-check_permit}

abbrev context : AdmissionContext
context = record { local_replica = replica 1; genesis = genesis }

abbrev session : AdmissionSession
session = record {
  context = context;
  fence = record { local_replica = replica 1; check = λ now c. ok 1000 };
}

abbrev progress : VerifiedProgress engine
progress = record {
  started = 10;
  applied = record {
    request = record {
      node_id = 1;
      healthy = some true;
      replica = replica 1;
      epoch = 41;
      request_nonce = 5;
      genesis = genesis;
    };
    log_id = (1, 3);
  };
  accepted_deadline = 100;
  session = session;
}

abbrev fresh : ConsensusFreshness engine
fresh = record {
  proof = record {
    started = some 10;
    invalidation_epoch = 1;
    acquisition_epoch = 0;
    available = true;
    progress = some progress;
  };
  lifetime = 50;
  identity = 1;
  limit = 100000;
}

abbrev permit : Permit engine
permit = record {
  stamp = record { identity = 1; context = context; epoch = 1 };
  acquisition_epoch = some 0;
  deadline = 60;
  progress = progress;
}

abbrev log_le : ℕ × ℕ → ℕ × ℕ → Bool
log_le a b = ltb a.1 (b.1 + 1)

invalidate-check_permit_example :
    check_permit 30 permit (run log_le (lost ∷ reported 25 progress ∷ []) (invalidate fresh))
    ≡ false
unfolding acquire is_fresh proof_deadline check_progress check_session
invalidate-check_permit_example =
    invalidate-check_permit log_le 20 30 true fresh permit (lost ∷ reported 25 progress ∷ [])
      (omega arith) refl (omega arith)
