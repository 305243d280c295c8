-- ===== src/Store/Examples/Authority.antt =====
-- Instances of the theorems on local authority and the installing of snapshots.
use keep_afloat_d.Prelude.{ℕ, some, List, [], ◌∷◌, ◌≡◌, refl}
use keep_afloat_d.Store.State.{KafStorageState, Entry, blank, new}
use keep_afloat_d.Store.Snapshot.{snapshot_of}
use keep_afloat_d.Store.Log.{save_vote, save_committed, append, truncate_after, purge}
use keep_afloat_d.Store.Install.{install_snapshot, apply}
use keep_afloat_d.Store.Install.Authority.{unadmitted_unchanged, install_snapshot-genesis}
use keep_afloat_d.Store.Examples.{engine, entry, booted, running, genesis}

abbrev founded : KafStorageState engine
founded = record booted { genesis = some genesis }

abbrev timed : List (ℕ × Entry engine)
timed = (10, entry 1 blank) ∷ (11, entry 2 blank) ∷ []

unadmitted_unchanged_example :
    ((save_vote 10 3 founded).0 ≡ founded)
    × (((save_committed 10 (some (1, 4)) founded).0 ≡ founded)
        × (((append 10 timed founded).0 ≡ founded)
            × (((truncate_after 10 (some (1, 4)) founded).0 ≡ founded)
                × (((purge 10 (1, 1) founded).0 ≡ founded)
                    × (((install_snapshot 10 (some (snapshot_of running)) founded).0 ≡ founded)
                        × ((apply timed founded).0 ≡ founded))))))
unadmitted_unchanged_example =
    unadmitted_unchanged 10 3 (some (1, 4)) (1, 1) timed (some (snapshot_of running)) founded
      (unfold new in refl)

install_snapshot-genesis_example :
    (install_snapshot 10 (some (snapshot_of running)) founded).0.genesis ≡ some genesis
install_snapshot-genesis_example =
    install_snapshot-genesis 10 (some (snapshot_of running)) founded genesis refl
