-- ===== src/Admission/Permission.antt =====
-- `RuntimePermission` of src/runtime_permission.rs: the authority that one process holds, which no
-- snapshot and no late response restores. A call takes the time that it reads; it returns the state
-- after it and what it answers.
pub mod History
use keep_afloat_d.Prelude.{
  ℕ, Bool, true, false, not, ◌&&◌, Option, none, some, List, [], ◌∷◌, leb, ltb, if◌then◌else◌,
  equal, ℕ_discrete,
}
use keep_afloat_d.Store.OpenRaft.{OpenRaft}
use keep_afloat_d.Store.Membership.{is_log_id}

pub record AuthorityContext : Type 0 where
  pub boot_nonce : ℕ
  pub cluster_epoch : ℕ
  pub genesis_digest : ℕ
  pub admission_generation : ℕ

unfoldable pub AuthorityContext-discrete : Discrete AuthorityContext
unfolding ℕ_discrete
AuthorityContext-discrete = hlevel ℕ_discrete

pub data Stage (raft : OpenRaft) : Type 0 where
  joining : raft.LogId → Stage raft
  voting : Stage raft

pub data State (raft : OpenRaft) : Type 0 where
  quarantined : ℕ → State raft
  active : AuthorityContext → Stage raft → ℕ → State raft
  sealed : State raft

abbrev pub is_context : AuthorityContext → AuthorityContext → Bool
is_context = equal AuthorityContext-discrete

-- The test of an admission that ends a quarantine.
abbrev pub may_start : ℕ → ℕ → ℕ → Bool
may_start now ready until = leb ready now && ltb now until

module _ {raft : OpenRaft} where
  -- Whether the state is active and its deadline has come.
  abbrev pub expired : ℕ → State raft → Bool
  expired now (quarantined ready) = false
  expired now (active context stage until) = leb until now
  expired now sealed = false

  -- `State::seal_expired`: the state after it.
  unfoldable pub seal_expired : ℕ → State raft → State raft
  seal_expired now state = if expired now state then sealed else state

  -- `RuntimePermission::admit`
  unfoldable pub admit : ℕ → AuthorityContext → ℕ → State raft → State raft × Bool
  unfolding seal_expired
  admit now context until (quarantined ready) =
      if may_start now ready until
      then (active context voting until, true)
      else (seal_expired now (quarantined ready), false)
  admit now context until (active current stage previous) =
      (seal_expired now (active current stage previous), false)
  admit now context until sealed = (seal_expired now sealed, false)

  -- The `match` of `join`.
  abbrev pub accepts_join : ℕ → AuthorityContext → raft.LogId → ℕ → State raft → Bool
  accepts_join now context prepared until (quarantined ready) = may_start now ready until
  accepts_join now context prepared until (active current (joining operation) previous) =
      is_context current context && is_log_id raft operation prepared && ltb previous until
  accepts_join now context prepared until (active current voting previous) = false
  accepts_join now context prepared until sealed = false

  -- `RuntimePermission::join`
  unfoldable pub join : ℕ → AuthorityContext → raft.LogId → ℕ → State raft → State raft × Bool
  join now context prepared until state =
      if expired now state
      then (sealed, false)
      else if accepts_join now context prepared until state
      then (active context (joining prepared) until, true)
      else (state, false)

  -- `mark_promoted` of a state that has not expired.
  abbrev pub promote_live : AuthorityContext → raft.LogId → State raft → State raft × Bool
  promote_live context prepared (active current (joining operation) until) =
      if is_context current context && is_log_id raft operation prepared
      then (active current voting until, true)
      else (active current (joining operation) until, false)
  promote_live context prepared (active current voting until) = (active current voting until, false)
  promote_live context prepared (quarantined ready) = (quarantined ready, false)
  promote_live context prepared sealed = (sealed, false)

  -- `RuntimePermission::mark_promoted`
  unfoldable pub mark_promoted : ℕ → AuthorityContext → raft.LogId → State raft → State raft × Bool
  mark_promoted now context prepared state =
      if expired now state then (sealed, false) else promote_live context prepared state

  -- `renew` of a state that has not expired.
  abbrev pub renew_live : AuthorityContext → ℕ → State raft → State raft × Bool
  renew_live context until (active current voting previous) =
      if is_context current context && leb previous until
      then (if ltb previous until
          then (active context voting until, true)
          else (active current voting previous, true))
      else (active current voting previous, false)
  renew_live context until (active current (joining operation) previous) =
      (active current (joining operation) previous, false)
  renew_live context until (quarantined ready) = (quarantined ready, false)
  renew_live context until sealed = (sealed, false)

  -- `RuntimePermission::renew`
  unfoldable pub renew : ℕ → AuthorityContext → ℕ → State raft → State raft × Bool
  renew now context until state =
      if expired now state then (sealed, false) else renew_live context until state

  abbrev pub held : State raft → Option (AuthorityContext × ℕ)
  held (active context stage until) = some (context, until)
  held (quarantined ready) = none
  held sealed = none

  -- `RuntimePermission::current`
  unfoldable pub current : ℕ → State raft → State raft × Option (AuthorityContext × ℕ)
  unfolding seal_expired
  current now state = (seal_expired now state, held (seal_expired now state))

  -- `RuntimePermission::seal`
  unfoldable pub seal : State raft → State raft × Bool
  seal sealed = (sealed, false)
  seal (quarantined ready) = (sealed, true)
  seal (active context stage until) = (sealed, true)

-- A call, with its arguments.
pub data Call (raft : OpenRaft) : Type 0 where
  admits : AuthorityContext → ℕ → Call raft
  joins : AuthorityContext → raft.LogId → ℕ → Call raft
  promotes : AuthorityContext → raft.LogId → Call raft
  renews : AuthorityContext → ℕ → Call raft
  asks : Call raft
  seals : Call raft

module _ {raft : OpenRaft} where
  -- A call at a time.
  unfoldable pub call : ℕ → Call raft → State raft → State raft
  unfolding admit join mark_promoted renew current seal
  call now (admits context until) state = (admit now context until state).0
  call now (joins context prepared until) state = (join now context prepared until state).0
  call now (promotes context prepared) state = (mark_promoted now context prepared state).0
  call now (renews context until) state = (renew now context until state).0
  call now asks state = (current now state).0
  call now seals state = (seal state).0

  -- Calls at their times, the earliest first.
  unfoldable pub calls : List (ℕ × Call raft) → State raft → State raft
  unfolding call
  calls [] state = state
  calls ((now, c) ∷ rest) state = calls rest (call now c state)
