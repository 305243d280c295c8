-- ===== src/Store/Machine/Health.antt =====
-- What a committed health update does to the probe rounds.
use keep_afloat_d.Prelude.{ℕ, ◌≤◌, Bool, ◌≡◌, arith, u64_max, unwrap_or, nat_ord}
use keep_afloat_d.BTreeMap
use keep_afloat_d.BTreeMap.{BTreeMap}
use keep_afloat_d.BTreeMap.Laws.{get-insert, get-insert_self}
use keep_afloat_d.VipLogic.Eligibility.{is_node_probe_fresh, next_probe_tick, is_node_base_eligible}
use keep_afloat_d.Store.OpenRaft.{OpenRaft}
use keep_afloat_d.Store.State.{KafStorageState}
use keep_afloat_d.Store.Machine.{apply_health}

-- The latest round bounds every node's, and fits the machine word.
pub record IsFrontier {raft : OpenRaft} (s : KafStorageState raft) : Type 0 where
  pub reported : (n : ℕ) → unwrap_or (BTreeMap.get s.node_probe_ticks n) 0 ≤ s.latest_probe_tick
  pub in_range : s.latest_probe_tick ≤ u64_max

next-reported :
    (ticks : BTreeMap ℕ ℕ) (latest n m : ℕ)
    → ((k : ℕ) → unwrap_or (BTreeMap.get ticks k) 0 ≤ latest)
    → unwrap_or
        (BTreeMap.get (BTreeMap.insert ticks n (next_probe_tick (BTreeMap.get ticks n) latest)) m)
        0
      ≤ next_probe_tick (BTreeMap.get ticks n) latest
unfolding next_probe_tick
next-reported ticks latest n m f =
    ground (arith, get-insert ticks n m (next_probe_tick (BTreeMap.get ticks n) latest), f m)

insert-eligible :
    (health : BTreeMap ℕ Bool) (ticks : BTreeMap ℕ ℕ) (n tick stale : ℕ) (healthy : Bool)
    → is_node_base_eligible n
        (BTreeMap.insert health n healthy)
        (BTreeMap.insert ticks n tick)
        tick
        stale
      ≡ healthy
unfolding is_node_base_eligible is_node_probe_fresh
insert-eligible health ticks n tick stale healthy =
    ground (arith, get-insert_self health n healthy, get-insert_self ticks n tick)

module _ {raft : OpenRaft} where
  pub apply_health-rounds :
      (n : ℕ) (healthy : Bool) (s : KafStorageState raft)
      → ((apply_health n healthy s).latest_probe_tick
          ≡ next_probe_tick (BTreeMap.get s.node_probe_ticks n) s.latest_probe_tick)
        × (((apply_health n healthy s).node_probe_ticks
              ≡ BTreeMap.insert s.node_probe_ticks n
                  (next_probe_tick (BTreeMap.get s.node_probe_ticks n) s.latest_probe_tick))
            × ((apply_health n healthy s).node_health ≡ BTreeMap.insert s.node_health n healthy))
  unfolding apply_health
  apply_health-rounds n healthy s = (ground arith, (ground arith, ground arith))

  -- In a state whose latest round bounds every node's, a committed report of node `n` keeps that bound,
  -- does not move the latest round back, and makes `n` base eligible just when it reports healthy, for any limit on missed probes.
  pub apply_health-IsFrontier :
      (n : ℕ) (healthy : Bool) (s : KafStorageState raft) (stale : ℕ)
      → IsFrontier s
      → IsFrontier (apply_health n healthy s)
        × ((s.latest_probe_tick ≤ (apply_health n healthy s).latest_probe_tick)
            × (is_node_base_eligible n
                  (apply_health n healthy s).node_health
                  (apply_health n healthy s).node_probe_ticks
                  (apply_health n healthy s).latest_probe_tick
                  stale
                ≡ healthy))
  unfolding next_probe_tick
  apply_health-IsFrontier n healthy s stale f =
      let (latest, (ticks, health)) = apply_health-rounds n healthy s in
      (
        record {
          reported = λ m.
              rw (ticks, latest)
                (next-reported s.node_probe_ticks s.latest_probe_tick n m f.reported);
          in_range = ground (arith, latest, f.in_range);
        },
        (
          ground (arith, latest),
          rw (ticks, latest, health)
              (insert-eligible s.node_health s.node_probe_ticks n
                (next_probe_tick (BTreeMap.get s.node_probe_ticks n) s.latest_probe_tick) stale
                healthy),
        ),
      )
