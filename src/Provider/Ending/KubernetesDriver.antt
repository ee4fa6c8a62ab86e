-- ===== src/Provider/Ending/KubernetesDriver.antt =====
-- failover-provider/provider.py: the rounds of the loops of `KubernetesDriver`.
use zkdeal_cloud_deployer_in.Base.{
  Bool, Option, String, false, if◌then◌else◌, none, refl, some, true, ℕ,
}
use zkdeal_cloud_deployer_in.Base.Json.{Fields, Json, null, obj, pos, truthy}
use zkdeal_cloud_deployer_in.Provider.Model.{
  Action, Command, Completed, Surroundings, finished, ok, ran, timed_out,
}
use zkdeal_cloud_deployer_in.Provider.Probes.{Config}
use zkdeal_cloud_deployer_in.Provider.Ending.{
  Ended, Ends, Ends-bind, Ends-require, Ends-still, Ends-then, Paced, ends_rules,
}
use zkdeal_cloud_deployer_in.Provider.Ending.Probing.{
  lsn_value-Ends, poll_for-Ends, probe_end_rules,
}
use zkdeal_cloud_deployer_in.Provider.Ending.DockerDriver.{caught_up-Ends}
use zkdeal_cloud_deployer_in.Provider.Kubernetes.{section_of}
use zkdeal_cloud_deployer_in.Provider.Kubernetes

module _ (env : Surroundings) (paced : Paced env) where
  section_or_empty : (o : Option Json) → Ends env (Kubernetes.object_or_empty o)
  unfolding Kubernetes.object_or_empty
  section_or_empty none = search ends_rules
  section_or_empty (some (obj fields)) = search ends_rules
  section_or_empty (some null) = search ends_rules
  section_or_empty (some _) = search ends_rules

  section_of-Ends : (value : Fields) (name : String) → Ends env (section_of value name)
  unfolding section_of
  section_of-Ends value name = section_or_empty _

  module _ (settings : Kubernetes.Settings) where
    completed-Ended : (c : Completed) → Ended (Kubernetes.completed settings env c)
    unfolding Kubernetes.completed
    completed-Ended timed_out = tt
    completed-Ended (finished true output) = tt
    completed-Ended (finished false output) = tt

    run-Ends : (command : Command) → Ends env (Kubernetes.run settings env command)
    unfolding Kubernetes.run
    run-Ends command = record {
      ends = λ w. completed-Ended (env.run w.history (Kubernetes.argv settings env command));
      later = λ w. paced.goes_on w.history (ran command);
    }

    object_or_fail-Ends : (o : Option Json) → Ends env (Kubernetes.object_or_fail settings env o)
    unfolding Kubernetes.object_or_fail
    object_or_fail-Ends none = search ends_rules
    object_or_fail-Ends (some (obj fields)) = search ends_rules
    object_or_fail-Ends (some _) = search ends_rules

    get_json-Ends : (kind_name : String) → Ends env (Kubernetes.get_json settings env kind_name)
    unfolding Kubernetes.get_json
    get_json-Ends kind_name = search (ends_rules, run-Ends, object_or_fail-Ends)

    count-Ended : (b : Bool) (value : Json) → Ended (if b then env.int_of value else ok (pos 0))
    count-Ended true value = paced.converts value
    count-Ended false value = tt

    replica_count-Ends : (value : Json) → Ends env (Kubernetes.replica_count settings env value)
    unfolding Kubernetes.replica_count
    replica_count-Ends value = Ends-still _ (λ w. count-Ended (truthy value) value) (λ w. refl)

    observed_replicas-Ends :
        (kind : String) (value : Fields)
        → Ends env (Kubernetes.observed_replicas settings env kind value)
    unfolding Kubernetes.observed_replicas
    observed_replicas-Ends kind value = search (ends_rules, section_of-Ends, replica_count-Ends)

    scale_round-Ends :
        (kind name : String) (n : ℕ) → Ends env (Kubernetes.scale_round settings env kind name n)
    unfolding Kubernetes.scale_round
    scale_round-Ends kind name n = search (ends_rules, get_json-Ends, observed_replicas-Ends)

    or_scale_timeout-Ends :
        (o : Option (Unit {0})) → Ends env (Kubernetes.or_scale_timeout settings env o)
    unfolding Kubernetes.or_scale_timeout
    or_scale_timeout-Ends none = search ends_rules
    or_scale_timeout-Ends (some u) = search ends_rules

    patch_route-Ends : (service : String) → Ends env (Kubernetes.patch_route settings env service)
    unfolding Kubernetes.patch_route
    patch_route-Ends service = search (ends_rules, run-Ends, get_json-Ends, section_of-Ends)

    replay_round-Ends : (target : String) → Ends env (Kubernetes.replay_round settings env target)
    unfolding Kubernetes.replay_round
    replay_round-Ends target = search (ends_rules, run-Ends, caught_up-Ends)

    or_stale-Ends : (o : Option String) → Ends env (Kubernetes.or_stale settings env o)
    unfolding Kubernetes.or_stale
    or_stale-Ends none = search ends_rules
    or_stale-Ends (some replay) = search ends_rules

    promote_database-Ends : Ends env (Kubernetes.promote_database settings env)
    unfolding Kubernetes.promote_database
    promote_database-Ends = search (ends_rules, run-Ends) depth 7

    module _ (config : Config) where
      scale_workload-Ends :
          (kind name : String) (n : ℕ)
          → Ends env (Kubernetes.scale_workload settings env config kind name n)
      unfolding Kubernetes.scale_workload
      scale_workload-Ends kind name n = Ends-then _ _ (Ends-require _ _ _) (
          Ends-then _ _ (run-Ends _) (
            Ends-bind _ _ (poll_for-Ends env paced _ (scale_round-Ends kind name n) _)
              or_scale_timeout-Ends))

      signer_disabled-Ends : Ends env (Kubernetes.signer_disabled settings env config)
      unfolding Kubernetes.signer_disabled
      signer_disabled-Ends = search (ends_rules, get_json-Ends, section_of-Ends, replica_count-Ends)

      await_replay-Ends :
          (target : String) → Ends env (Kubernetes.await_replay settings env config target)
      unfolding Kubernetes.await_replay
      await_replay-Ends target =
          Ends-bind _ _ (poll_for-Ends env paced _ (replay_round-Ends target) _) or_stale-Ends

      switch_database-Ends : Ends env (Kubernetes.switch_database settings env config)
      unfolding Kubernetes.switch_database
      switch_database-Ends =
          search (probe_end_rules, scale_workload-Ends, promote_database-Ends, patch_route-Ends)
            depth 9

      pub kubernetes_commit-Ends :
          (operation_id : String) → Ends env (Kubernetes.commit settings env config operation_id)
      unfolding Kubernetes.commit
      kubernetes_commit-Ends operation_id =
          search (probe_end_rules, scale_workload-Ends, patch_route-Ends) depth 9

      module _ (checkpoint : String → Action (Unit {0}))
          (kept : (t : String) → Ends env (checkpoint t)) where
        capture_target-Ends : Ends env (Kubernetes.capture_target settings env checkpoint)
        unfolding Kubernetes.capture_target
        capture_target-Ends = search (ends_rules, run-Ends, lsn_value-Ends, kept) depth 9

        choose_target-Ends :
            (existing : Option String)
            → Ends env (Kubernetes.choose_target settings env existing checkpoint)
        unfolding Kubernetes.choose_target
        choose_target-Ends none = capture_target-Ends
        choose_target-Ends (some target) = search ends_rules

        pub kubernetes_prepare-Ends :
            (candidate : Json) (existing : Option String)
            → Ends env (Kubernetes.prepare settings env config candidate existing checkpoint)
        unfolding Kubernetes.prepare
        kubernetes_prepare-Ends candidate existing =
            search
              (
                ends_rules, scale_workload-Ends, signer_disabled-Ends, choose_target-Ends,
                await_replay-Ends, switch_database-Ends,
              )
              depth 20
