-- ===== src/Lib.antt =====
-- keepAfloatD: a daemon that keeps virtual IP addresses (VIPs) on healthy nodes. The nodes agree
-- through Raft on one log of health reports, acknowledgements and membership changes. Each node
-- applies the log to the same state, recomputes from it which node holds which VIP, and attaches a
-- VIP only when the bind policy allows it.
--
-- The parts and their files:
-- - Prelude, BTreeMap, BTreeSet: Boolean tests, orders, saturating 64-bit arithmetic, results, and
--   the standard library's ordered map and set as sorted lists, with their laws.
-- - Addr: the addresses of the VIPs.
-- - Identity: replicas, genesis, sessions of local authority, health progress and join plans
--   (src/raft/admission.rs, src/raft/admission/membership.rs).
-- - VipLogic.Eligibility, VipLogic.Assign, VipLogic.Reconcile: src/raft/store/vip_logic.rs. The
--   three passes of `assign_vips_minimal_movement_with_receivers` are `keep_holders`,
--   `place_orphans` and `rebalance`; the loop of `reconcile_vip_assignments` is `reconcile_from`.
-- - Store.OpenRaft: what the store uses of the `openraft` crate, as a record that everything in
--   Store takes as a parameter.
-- - Store.State, Store.Snapshot: `KafStorageState`, `KafSnapshot` and the requests
--   (src/raft/store/state.rs, src/raft/types.rs).
-- - Store.Membership: src/raft/store/membership.rs.
-- - Store.Machine, Store.Recompute, Store.Apply: src/raft/store/state_machine.rs. The `match` of
--   `apply_one` is `dispatch`, its end is `recompute`, and `apply_all` is the loop over the log.
-- - Store.Apply.Takeover: what a committed change of the holder means for the bind policy. Store.Local:
--   a node's own log, vote and authority against the state machine, and catching up by a snapshot.
-- - Store.Log, Store.Install: src/raft/store/log.rs, src/raft/store/authority.rs and the installing
--   of a snapshot in src/raft/store/state_machine.rs.
-- - BindPolicy: src/bind_policy.rs.
-- - Admission.Timing: src/runtime_permission/timing.rs. Admission.Permission:
--   src/runtime_permission.rs, one function per method, and `calls` runs any sequence of them.
--   Admission.Authority: src/runtime_permission/admission.rs.
--   Admission.Record: the signed records of src/auth.rs and src/raft/admission/controller.rs.
--   Admission.Controller: src/raft/admission/controller.rs; `check_request` and `reserve_until` are
--   the two halves of `reserve`, `collect_grants`, `check_quorum` and `finish` the parts of
--   `complete`. The crates that hash, tag and encode are the parameters `Crypto` and `encode`.
-- - Config.Vips: src/config/vip_validation.rs; an interface's name is a text, and what the standard
--   library knows of characters is the parameter `Text`.
-- - Reconciler.Takeover: src/vip/takeover.rs. Reconciler.Intent: src/vip/reconcile/intent.rs and the
--   decisions of src/vip/reconcile.rs and src/vip.rs. Reconciler.Exclusive: the configuration, the log
--   and the intents of several nodes together.
-- - Freshness: src/consensus_freshness.rs and src/consensus_freshness/permits.rs. Health:
--   src/health.rs and src/health/local.rs. WarningLimit: src/warning_limit.rs.
-- - Network.Authorization: src/raft/network/authorization.rs, the checks of the entries that a peer
--   sends. What it uses of the crate besides `OpenRaft` is the parameter `Peers`.
--
-- The state is passed explicitly: a `&mut` parameter is an argument and a result. An ordered map is
-- a list of pairs in the order of its keys. Numbers are natural numbers; `saturating_add` stops at
-- the end of `u64`. A clock is an argument. Text that only goes to a log file is left out, and a
-- rejection keeps its message.
--
-- The only loop without a structural bound is the rebalancing. Its fuel is one more than the sum of
-- the squared loads of the nodes; every round lowers that sum, so the fuel never decides the result.
--
-- Not modelled: the consensus engine, the transport of the network, the daemon's tasks and its
-- kernel commands, the parsing of the configuration, and the JSON of requests and snapshots. The
-- theorems on the store assume that the list of VIPs holds no address twice, as the list that
-- Config.Vips leaves does.
pub mod Prelude
pub mod BTreeMap
pub mod BTreeSet
pub mod Addr
pub mod Identity
pub mod VipLogic
pub mod Store
pub mod BindPolicy
pub mod Admission
pub mod Config
pub mod Reconciler
pub mod Freshness
pub mod Health
pub mod WarningLimit
pub mod Network
