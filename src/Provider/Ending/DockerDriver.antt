-- ===== src/Provider/Ending/DockerDriver.antt =====
-- failover-provider/provider.py: the rounds of the loops of `DockerDriver`.
use zkdeal_cloud_deployer_in.Provider.Probes.{Config}
use zkdeal_cloud_deployer_in.Base.Json.{Json}
use zkdeal_cloud_deployer_in.Provider.Model.{
  Action, Command, Completed, Surroundings, finished, ran, timed_out,
}
use zkdeal_cloud_deployer_in.Base.{Bool, List, Option, String, [], false, none, some, true, ◌∷◌}
use zkdeal_cloud_deployer_in.Provider.Ending.{Ended, Ends, Ends-bind, Paced, ends_rules}
use zkdeal_cloud_deployer_in.Provider.Ending.Probing.{
  lsn_value-Ends, poll_for-Ends, probe_end_rules,
}
use zkdeal_cloud_deployer_in.Provider.Docker.{caught_up, compare_replay}
use zkdeal_cloud_deployer_in.Provider.Docker

module _ (env : Surroundings) (paced : Paced env) where
  compare_replay-Ends :
      (b : Bool) (target replay : String) → Ends env (compare_replay b target replay)
  unfolding compare_replay
  compare_replay-Ends false target replay = search ends_rules
  compare_replay-Ends true target replay = search (ends_rules, lsn_value-Ends)

  pub caught_up-Ends :
      (target recovery replay : String) → Ends env (caught_up target recovery replay)
  unfolding caught_up
  caught_up-Ends target recovery replay = compare_replay-Ends _ target replay

  module _ (settings : Docker.Settings) where
    completed-Ended :
        (c : Completed) (tolerate : Bool) → Ended (Docker.completed settings env c tolerate)
    unfolding Docker.completed
    completed-Ended timed_out tolerate = tt
    completed-Ended (finished true output) tolerate = tt
    completed-Ended (finished false output) true = tt
    completed-Ended (finished false output) false = tt

    run-Ends : (command : Command) → Ends env (Docker.run settings env command)
    unfolding Docker.run
    run-Ends command = record {
      ends = λ w. completed-Ended (env.run w.history (Docker.argv settings command)) false;
      later = λ w. paced.goes_on w.history (ran command);
    }

    run_tolerant-Ends : (command : Command) → Ends env (Docker.run_tolerant settings env command)
    unfolding Docker.run_tolerant
    run_tolerant-Ends command = record {
      ends = λ w. completed-Ended (env.run w.history (Docker.argv settings command)) true;
      later = λ w. paced.goes_on w.history (ran command);
    }

    one_line-Ends : (lines : List String) → Ends env (Docker.one_line settings env lines)
    unfolding Docker.one_line
    one_line-Ends [] = search ends_rules
    one_line-Ends (line ∷ []) = search ends_rules
    one_line-Ends (line ∷ other ∷ rest) = search ends_rules

    container-Ends : (service : String) → Ends env (Docker.container settings env service)
    unfolding Docker.container
    container-Ends service = search (ends_rules, run-Ends, one_line-Ends)

    running-Ends : (c : String) → Ends env (Docker.running settings env c)
    unfolding Docker.running
    running-Ends c = search (ends_rules, run-Ends)

    stop_container-Ends : (c : String) → Ends env (Docker.stop_container settings env c)
    unfolding Docker.stop_container
    stop_container-Ends c = search (ends_rules, run-Ends, running-Ends) depth 7

    route_alias-Ends : (c alias : String) → Ends env (Docker.route_alias settings env c alias)
    unfolding Docker.route_alias
    route_alias-Ends c alias = search (ends_rules, run-Ends, run_tolerant-Ends)

    replay_round-Ends :
        (target standby_db : String) → Ends env (Docker.replay_round settings env target standby_db)
    unfolding Docker.replay_round
    replay_round-Ends target standby_db = search (ends_rules, run-Ends, caught_up-Ends)

    or_stale-Ends : (o : Option String) → Ends env (Docker.or_stale settings env o)
    unfolding Docker.or_stale
    or_stale-Ends none = search ends_rules
    or_stale-Ends (some replay) = search ends_rules

    promote_database-Ends : (db : String) → Ends env (Docker.promote_database settings env db)
    unfolding Docker.promote_database
    promote_database-Ends db = search (ends_rules, run-Ends) depth 7

    fence_writer-Ends :
        (active signer : String) → Ends env (Docker.fence_writer settings env active signer)
    unfolding Docker.fence_writer
    fence_writer-Ends active signer = search (ends_rules, running-Ends, stop_container-Ends)

    module _ (config : Config) where
      await_replay-Ends :
          (target standby_db : String)
          → Ends env (Docker.await_replay settings env config target standby_db)
      unfolding Docker.await_replay
      await_replay-Ends target standby_db =
          Ends-bind _ _ (poll_for-Ends env paced _ (replay_round-Ends target standby_db) _)
            or_stale-Ends

      switch_database-Ends :
          (primary standby_db : String)
          → Ends env (Docker.switch_database settings env config primary standby_db)
      unfolding Docker.switch_database
      switch_database-Ends primary standby_db =
          search
            (
              probe_end_rules, run_tolerant-Ends, stop_container-Ends, route_alias-Ends,
              promote_database-Ends,
            )
            depth 9

    module _ (checkpoint : String → Action (Unit {0}))
        (kept : (t : String) → Ends env (checkpoint t)) where
      capture_target-Ends :
          (primary : String) → Ends env (Docker.capture_target settings env checkpoint primary)
      unfolding Docker.capture_target
      capture_target-Ends primary =
          search (ends_rules, run-Ends, running-Ends, lsn_value-Ends, kept) depth 9

      choose_target-Ends :
          (existing : Option String) (primary : String)
          → Ends env (Docker.choose_target settings env existing checkpoint primary)
      unfolding Docker.choose_target
      choose_target-Ends none primary = capture_target-Ends primary
      choose_target-Ends (some target) primary = search ends_rules

      module _ (config : Config) where
        pub docker_prepare-Ends :
            (candidate : Json) (existing : Option String)
            → Ends env (Docker.prepare settings env config candidate existing checkpoint)
        unfolding Docker.prepare
        docker_prepare-Ends candidate existing =
            search
              (
                ends_rules, container-Ends, fence_writer-Ends, choose_target-Ends,
                await_replay-Ends, switch_database-Ends,
              )
              depth 20

    module _ (config : Config) where
      activate_signer-Ends :
          (signer : String) → Ends env (Docker.activate_signer settings env config signer)
      unfolding Docker.activate_signer
      activate_signer-Ends signer = search (ends_rules, run-Ends, running-Ends) depth 9

      pub docker_commit-Ends :
          (operation_id : String) → Ends env (Docker.commit settings env config operation_id)
      unfolding Docker.commit
      docker_commit-Ends operation_id =
          search
            (
              probe_end_rules, run_tolerant-Ends, container-Ends, stop_container-Ends,
              route_alias-Ends, activate_signer-Ends,
            )
            depth 20
