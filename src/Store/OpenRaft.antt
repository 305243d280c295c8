-- ===== src/Store/OpenRaft.antt =====
-- What the store uses of the `openraft` crate, which is not part of this repository: the types that it
-- keeps for the engine, and the accessors that it calls on them.
use keep_afloat_d.Prelude.{ℕ, List, ◌≡◌}
use keep_afloat_d.Identity.{ReplicaId}

pub record OpenRaft : Type 1 where
  pub LogId : Type 0
  pub Leader : Type 0
  pub Membership : Type 0
  pub Vote : Type 0
  -- `LogId::index`, `LogId::committed_leader_id` and `LogId::new`
  pub index : LogId → ℕ
  pub leader : LogId → Leader
  pub log_id : Leader → ℕ → LogId
  pub index-log_id : (l : Leader) (i : ℕ) → index (log_id l i) ≡ i
  pub log_id-discrete : Discrete LogId
  -- `Membership::{voter_ids, learner_ids, nodes, get_joint_config}`
  pub voter_ids : Membership → List ReplicaId
  pub learner_ids : Membership → List ReplicaId
  pub node_ids : Membership → List ReplicaId
  pub joint_config : Membership → List (List ReplicaId)
  pub empty_membership : Membership
