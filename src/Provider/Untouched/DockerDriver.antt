-- ===== src/Provider/Untouched/DockerDriver.antt =====
-- What `DockerDriver` of failover-provider/provider.py does to the operations.
use zkdeal_cloud_deployer_in.Provider.Probes.{Config}
use zkdeal_cloud_deployer_in.Base.Json.{Json}
use zkdeal_cloud_deployer_in.Provider.Model.{Action, Command, Operations, Surroundings}
use zkdeal_cloud_deployer_in.Base.{Bool, List, Option, String, [], false, none, some, true, ◌∷◌}
use zkdeal_cloud_deployer_in.Provider.Rules.{Leaves, Leaves-bind, leaves_rules}
use zkdeal_cloud_deployer_in.Provider.Untouched.{lsn_value-Leaves, poll_for-Leaves, probe_rules}
use zkdeal_cloud_deployer_in.Provider.Docker.{caught_up, compare_replay}
use zkdeal_cloud_deployer_in.Provider.Docker

module _ {I : Operations → Type 0} where
  compare_replay-Leaves :
      (b : Bool) (target replay : String) → Leaves I (compare_replay b target replay)
  unfolding compare_replay
  compare_replay-Leaves false target replay = search leaves_rules
  compare_replay-Leaves true target replay = search (leaves_rules, lsn_value-Leaves)

  pub caught_up-Leaves :
      (target recovery replay : String) → Leaves I (caught_up target recovery replay)
  unfolding caught_up
  caught_up-Leaves target recovery replay = compare_replay-Leaves _ target replay

  module _ (settings : Docker.Settings) (env : Surroundings) where
    run-Leaves : (command : Command) → Leaves I (Docker.run settings env command)
    unfolding Docker.run
    run-Leaves command = record { at = λ w i. i }

    run_tolerant-Leaves : (command : Command) → Leaves I (Docker.run_tolerant settings env command)
    unfolding Docker.run_tolerant
    run_tolerant-Leaves command = record { at = λ w i. i }

    one_line-Leaves : (lines : List String) → Leaves I (Docker.one_line settings env lines)
    unfolding Docker.one_line
    one_line-Leaves [] = search leaves_rules
    one_line-Leaves (line ∷ []) = search leaves_rules
    one_line-Leaves (line ∷ other ∷ rest) = search leaves_rules

    container-Leaves : (service : String) → Leaves I (Docker.container settings env service)
    unfolding Docker.container
    container-Leaves service = search (leaves_rules, run-Leaves, one_line-Leaves)

    running-Leaves : (c : String) → Leaves I (Docker.running settings env c)
    unfolding Docker.running
    running-Leaves c = search (leaves_rules, run-Leaves)

    stop_container-Leaves : (c : String) → Leaves I (Docker.stop_container settings env c)
    unfolding Docker.stop_container
    stop_container-Leaves c = search (leaves_rules, run-Leaves, running-Leaves) depth 7

    route_alias-Leaves : (c alias : String) → Leaves I (Docker.route_alias settings env c alias)
    unfolding Docker.route_alias
    route_alias-Leaves c alias = search (leaves_rules, run-Leaves, run_tolerant-Leaves)

    replay_round-Leaves :
        (target standby_db : String) → Leaves I (Docker.replay_round settings env target standby_db)
    unfolding Docker.replay_round
    replay_round-Leaves target standby_db = search (leaves_rules, run-Leaves, caught_up-Leaves)

    or_stale-Leaves : (o : Option String) → Leaves I (Docker.or_stale settings env o)
    unfolding Docker.or_stale
    or_stale-Leaves none = search leaves_rules
    or_stale-Leaves (some replay) = search leaves_rules

    promote_database-Leaves : (db : String) → Leaves I (Docker.promote_database settings env db)
    unfolding Docker.promote_database
    promote_database-Leaves db = search (leaves_rules, run-Leaves) depth 7

    fence_writer-Leaves :
        (active signer : String) → Leaves I (Docker.fence_writer settings env active signer)
    unfolding Docker.fence_writer
    fence_writer-Leaves active signer = search (leaves_rules, running-Leaves, stop_container-Leaves)

    module _ (config : Config) where
      await_replay-Leaves :
          (target standby_db : String)
          → Leaves I (Docker.await_replay settings env config target standby_db)
      unfolding Docker.await_replay
      await_replay-Leaves target standby_db =
          Leaves-bind _ _ (poll_for-Leaves env _ (replay_round-Leaves target standby_db) _)
            or_stale-Leaves

      switch_database-Leaves :
          (primary standby_db : String)
          → Leaves I (Docker.switch_database settings env config primary standby_db)
      unfolding Docker.switch_database
      switch_database-Leaves primary standby_db =
          search
            (
              probe_rules, run_tolerant-Leaves, stop_container-Leaves, route_alias-Leaves,
              promote_database-Leaves,
            )
            depth 9

    module _ (checkpoint : String → Action (Unit {0}))
        (kept : (t : String) → Leaves I (checkpoint t)) where
      capture_target-Leaves :
          (primary : String) → Leaves I (Docker.capture_target settings env checkpoint primary)
      unfolding Docker.capture_target
      capture_target-Leaves primary =
          search (leaves_rules, run-Leaves, running-Leaves, lsn_value-Leaves, kept) depth 9

      choose_target-Leaves :
          (existing : Option String) (primary : String)
          → Leaves I (Docker.choose_target settings env existing checkpoint primary)
      unfolding Docker.choose_target
      choose_target-Leaves none primary = capture_target-Leaves primary
      choose_target-Leaves (some target) primary = search leaves_rules

      module _ (config : Config) where
        pub docker_prepare-Leaves :
            (candidate : Json) (existing : Option String)
            → Leaves I (Docker.prepare settings env config candidate existing checkpoint)
        unfolding Docker.prepare
        docker_prepare-Leaves candidate existing =
            search
              (
                leaves_rules, container-Leaves, fence_writer-Leaves, choose_target-Leaves,
                await_replay-Leaves, switch_database-Leaves,
              )
              depth 20

    module _ (config : Config) where
      activate_signer-Leaves :
          (signer : String) → Leaves I (Docker.activate_signer settings env config signer)
      unfolding Docker.activate_signer
      activate_signer-Leaves signer = search (leaves_rules, run-Leaves, running-Leaves) depth 9

      pub docker_commit-Leaves :
          (operation_id : String) → Leaves I (Docker.commit settings env config operation_id)
      unfolding Docker.commit
      docker_commit-Leaves operation_id =
          search
            (
              probe_rules, run_tolerant-Leaves, container-Leaves, stop_container-Leaves,
              route_alias-Leaves, activate_signer-Leaves,
            )
            depth 20
