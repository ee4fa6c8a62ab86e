-- ===== src/Provider/Untouched/KubernetesDriver.antt =====
-- What `KubernetesDriver` of failover-provider/provider.py does to the operations.
use zkdeal_cloud_deployer_in.Base.{Option, String, none, some, ℕ}
use zkdeal_cloud_deployer_in.Base.Json.{Fields, Json, null, obj}
use zkdeal_cloud_deployer_in.Provider.Model.{Action, Command, Operations, Surroundings}
use zkdeal_cloud_deployer_in.Provider.Probes.{Config}
use zkdeal_cloud_deployer_in.Provider.Rules.{
  Leaves, Leaves-bind, Leaves-require, Leaves-then, leaves_rules,
}
use zkdeal_cloud_deployer_in.Provider.Untouched.{lsn_value-Leaves, poll_for-Leaves, probe_rules}
use zkdeal_cloud_deployer_in.Provider.Untouched.DockerDriver.{caught_up-Leaves}
use zkdeal_cloud_deployer_in.Provider.Kubernetes.{section_of}
use zkdeal_cloud_deployer_in.Provider.Kubernetes

module _ {I : Operations → Type 0} where
  section_or_empty : (o : Option Json) → Leaves I (Kubernetes.object_or_empty o)
  unfolding Kubernetes.object_or_empty
  section_or_empty none = search leaves_rules
  section_or_empty (some (obj fields)) = search leaves_rules
  section_or_empty (some null) = search leaves_rules
  section_or_empty (some _) = search leaves_rules

  section_of-Leaves : (value : Fields) (name : String) → Leaves I (section_of value name)
  unfolding section_of
  section_of-Leaves value name = section_or_empty _

  module _ (settings : Kubernetes.Settings) (env : Surroundings) where
    run-Leaves : (command : Command) → Leaves I (Kubernetes.run settings env command)
    unfolding Kubernetes.run
    run-Leaves command = record { at = λ w i. i }

    object_or_fail-Leaves : (o : Option Json) → Leaves I (Kubernetes.object_or_fail settings env o)
    unfolding Kubernetes.object_or_fail
    object_or_fail-Leaves none = search leaves_rules
    object_or_fail-Leaves (some (obj fields)) = search leaves_rules
    object_or_fail-Leaves (some _) = search leaves_rules

    get_json-Leaves : (kind_name : String) → Leaves I (Kubernetes.get_json settings env kind_name)
    unfolding Kubernetes.get_json
    get_json-Leaves kind_name = search (leaves_rules, run-Leaves, object_or_fail-Leaves)

    replica_count-Leaves : (value : Json) → Leaves I (Kubernetes.replica_count settings env value)
    unfolding Kubernetes.replica_count
    replica_count-Leaves value = record { at = λ w i. i }

    observed_replicas-Leaves :
        (kind : String) (value : Fields)
        → Leaves I (Kubernetes.observed_replicas settings env kind value)
    unfolding Kubernetes.observed_replicas
    observed_replicas-Leaves kind value =
        search (leaves_rules, section_of-Leaves, replica_count-Leaves)

    scale_round-Leaves :
        (kind name : String) (n : ℕ) → Leaves I (Kubernetes.scale_round settings env kind name n)
    unfolding Kubernetes.scale_round
    scale_round-Leaves kind name n =
        search (leaves_rules, get_json-Leaves, observed_replicas-Leaves)

    or_scale_timeout-Leaves :
        (o : Option (Unit {0})) → Leaves I (Kubernetes.or_scale_timeout settings env o)
    unfolding Kubernetes.or_scale_timeout
    or_scale_timeout-Leaves none = search leaves_rules
    or_scale_timeout-Leaves (some u) = search leaves_rules

    patch_route-Leaves : (service : String) → Leaves I (Kubernetes.patch_route settings env service)
    unfolding Kubernetes.patch_route
    patch_route-Leaves service =
        search (leaves_rules, run-Leaves, get_json-Leaves, section_of-Leaves)

    replay_round-Leaves : (target : String) → Leaves I (Kubernetes.replay_round settings env target)
    unfolding Kubernetes.replay_round
    replay_round-Leaves target = search (leaves_rules, run-Leaves, caught_up-Leaves)

    or_stale-Leaves : (o : Option String) → Leaves I (Kubernetes.or_stale settings env o)
    unfolding Kubernetes.or_stale
    or_stale-Leaves none = search leaves_rules
    or_stale-Leaves (some replay) = search leaves_rules

    promote_database-Leaves : Leaves I (Kubernetes.promote_database settings env)
    unfolding Kubernetes.promote_database
    promote_database-Leaves = search (leaves_rules, run-Leaves) depth 7

    module _ (config : Config) where
      scale_workload-Leaves :
          (kind name : String) (n : ℕ)
          → Leaves I (Kubernetes.scale_workload settings env config kind name n)
      unfolding Kubernetes.scale_workload
      scale_workload-Leaves kind name n = Leaves-then _ _ (Leaves-require _ _) (
          Leaves-then _ _ (run-Leaves _) (
            Leaves-bind _ _ (poll_for-Leaves env _ (scale_round-Leaves kind name n) _)
              or_scale_timeout-Leaves))

      signer_disabled-Leaves : Leaves I (Kubernetes.signer_disabled settings env config)
      unfolding Kubernetes.signer_disabled
      signer_disabled-Leaves =
          search (leaves_rules, get_json-Leaves, section_of-Leaves, replica_count-Leaves)

      await_replay-Leaves :
          (target : String) → Leaves I (Kubernetes.await_replay settings env config target)
      unfolding Kubernetes.await_replay
      await_replay-Leaves target =
          Leaves-bind _ _ (poll_for-Leaves env _ (replay_round-Leaves target) _) or_stale-Leaves

      switch_database-Leaves : Leaves I (Kubernetes.switch_database settings env config)
      unfolding Kubernetes.switch_database
      switch_database-Leaves =
          search (probe_rules, scale_workload-Leaves, promote_database-Leaves, patch_route-Leaves)
            depth 9

      pub kubernetes_commit-Leaves :
          (operation_id : String) → Leaves I (Kubernetes.commit settings env config operation_id)
      unfolding Kubernetes.commit
      kubernetes_commit-Leaves operation_id =
          search (probe_rules, scale_workload-Leaves, patch_route-Leaves) depth 9

      module _ (checkpoint : String → Action (Unit {0}))
          (kept : (t : String) → Leaves I (checkpoint t)) where
        capture_target-Leaves : Leaves I (Kubernetes.capture_target settings env checkpoint)
        unfolding Kubernetes.capture_target
        capture_target-Leaves = search (leaves_rules, run-Leaves, lsn_value-Leaves, kept) depth 9

        choose_target-Leaves :
            (existing : Option String)
            → Leaves I (Kubernetes.choose_target settings env existing checkpoint)
        unfolding Kubernetes.choose_target
        choose_target-Leaves none = capture_target-Leaves
        choose_target-Leaves (some target) = search leaves_rules

        pub kubernetes_prepare-Leaves :
            (candidate : Json) (existing : Option String)
            → Leaves I (Kubernetes.prepare settings env config candidate existing checkpoint)
        unfolding Kubernetes.prepare
        kubernetes_prepare-Leaves candidate existing =
            search
              (
                leaves_rules, scale_workload-Leaves, signer_disabled-Leaves, choose_target-Leaves,
                await_replay-Leaves, switch_database-Leaves,
              )
              depth 20
