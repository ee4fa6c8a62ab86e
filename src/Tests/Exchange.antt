-- ===== src/Tests/Exchange.antt =====
-- The answers of the provider at the controller, at concrete inputs.
use zkdeal_cloud_deployer_in.Base.{none, refl, ◌≡◌}
use zkdeal_cloud_deployer_in.Base.Json.{Fields, str}
use zkdeal_cloud_deployer_in.Base.Text.{is_digit, is_lower_hex, parse_lsn}
use zkdeal_cloud_deployer_in.Promotion.Model.{ok}
use zkdeal_cloud_deployer_in.Promotion.Validate.{validate_commit, validate_prepare}
use zkdeal_cloud_deployer_in.Promotion.Handshake.{
  docker_commit-validate_commit, docker_prepare-validate_prepare, kubernetes_commit-validate_commit,
  kubernetes_prepare-validate_prepare,
}
use zkdeal_cloud_deployer_in.Tests.Cluster.{cluster, cluster_settings}
use zkdeal_cloud_deployer_in.Tests.Platform.{empty_world, host, host_config, host_settings}
use zkdeal_cloud_deployer_in.Tests.Controller.{controller}
use zkdeal_cloud_deployer_in.Provider.Model
use zkdeal_cloud_deployer_in.Provider.Probes
use zkdeal_cloud_deployer_in.Provider.Docker
use zkdeal_cloud_deployer_in.Provider.Kubernetes

abbrev ready : Fields
ready = Docker.ready_response (str "candidate-1") "0/10" "0/20"

docker_prepare_returns :
    (Docker.prepare host_settings host host_config
      (str "candidate-1")
      none
      (λ t. Model.pure tt)
      empty_world).0
    ≡ Model.ok ready
unfolding Model.◌>>=◌ Probes.monotonic Probes.fetch Probes.poll Probes.poll_for
    Probes.verify_indexer Probes.unless_found Probes.while_in_time parse_lsn Probes.lsn_value
    Docker.prepare Docker.argv Docker.run Docker.run_tolerant Docker.container Docker.running
    Docker.stop_container Docker.route_alias Docker.capture_target Docker.choose_target
    Docker.compare_replay Docker.caught_up Docker.replay_round Docker.or_stale
    Docker.promote_database Docker.fence_writer Docker.await_replay Docker.switch_database
docker_prepare_returns = refl

docker_prepare-validate_prepare_example : validate_prepare controller ready ≡ ok "candidate-1"
docker_prepare-validate_prepare_example =
    docker_prepare-validate_prepare host host_config controller none (λ t. Model.pure tt)
      host_settings empty_world ready docker_prepare_returns

docker_commit_returns :
    (Docker.commit host_settings host host_config "candidate-1" empty_world).0
    ≡ Model.ok (Docker.committed_response "candidate-1" "node-b")
unfolding Model.◌>>=◌ Probes.monotonic Probes.fetch Probes.poll Probes.poll_for Probes.unless_found
    Probes.while_in_time Docker.commit Docker.argv Docker.run Docker.run_tolerant Docker.container
    Docker.running Docker.stop_container Docker.route_alias Docker.activate_signer
    Probes.verify_signer_authority Probes.signer_pass Probes.or_inactive is_lower_hex
docker_commit_returns = refl

docker_commit-validate_commit_example :
    validate_commit controller "candidate-1" (Docker.committed_response "candidate-1" "node-b")
    ≡ ok tt
docker_commit-validate_commit_example =
    docker_commit-validate_commit host host_config controller "candidate-1" refl host_settings
      empty_world (Docker.committed_response "candidate-1" "node-b") docker_commit_returns

kubernetes_prepare_returns :
    (Kubernetes.prepare cluster_settings cluster host_config
      (str "candidate-1")
      none
      (λ t. Model.pure tt)
      empty_world).0
    ≡ Model.ok ready
unfolding Model.◌>>=◌ Probes.monotonic Probes.fetch Probes.poll Probes.poll_for
    Probes.verify_indexer Probes.unless_found Probes.while_in_time parse_lsn Probes.lsn_value
    Docker.compare_replay Docker.caught_up Kubernetes.prepare Kubernetes.scale_workload
    Kubernetes.scale_round Kubernetes.run Kubernetes.argv Kubernetes.get_json
    Kubernetes.observed_replicas Kubernetes.section_of Kubernetes.object_or_empty
    Kubernetes.signer_disabled Kubernetes.capture_target Kubernetes.choose_target
    Kubernetes.replay_round Kubernetes.or_stale Kubernetes.await_replay Kubernetes.promote_database
    Kubernetes.patch_route Kubernetes.switch_database is_digit
kubernetes_prepare_returns = refl

kubernetes_prepare-validate_prepare_example : validate_prepare controller ready ≡ ok "candidate-1"
kubernetes_prepare-validate_prepare_example =
    kubernetes_prepare-validate_prepare cluster host_config controller none (λ t. Model.pure tt)
      cluster_settings empty_world ready kubernetes_prepare_returns

kubernetes_commit_returns :
    (Kubernetes.commit cluster_settings cluster host_config "candidate-1" empty_world).0
    ≡ Model.ok (Docker.committed_response "candidate-1" "node-b")
unfolding Model.◌>>=◌ Probes.monotonic Probes.fetch Probes.poll Probes.poll_for Probes.unless_found
    Probes.while_in_time Kubernetes.commit Probes.verify_signer_authority Probes.signer_pass
    Probes.or_inactive Kubernetes.scale_workload Kubernetes.scale_round Kubernetes.run
    Kubernetes.argv Kubernetes.get_json Kubernetes.observed_replicas Kubernetes.section_of
    Kubernetes.object_or_empty Kubernetes.patch_route
kubernetes_commit_returns = refl

kubernetes_commit-validate_commit_example :
    validate_commit controller "candidate-1" (Docker.committed_response "candidate-1" "node-b")
    ≡ ok tt
kubernetes_commit-validate_commit_example =
    kubernetes_commit-validate_commit cluster host_config controller "candidate-1" refl
      cluster_settings empty_world (Docker.committed_response "candidate-1" "node-b")
      kubernetes_commit_returns
