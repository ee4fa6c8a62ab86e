-- ===== src/Promotion/Handshake.antt =====
-- The two programs together: the answers of the drivers of failover-provider/provider.py, and the
-- validation of scripts/promotion_controller.py.
use zkdeal_cloud_deployer_in.Base.{Option, String, eq_refl, ◌≡◌}
use zkdeal_cloud_deployer_in.Base.Json.{Fields, str}
use zkdeal_cloud_deployer_in.Promotion.Model.{Config, ok}
use zkdeal_cloud_deployer_in.Promotion.Validate.{validate_commit, validate_prepare}
use zkdeal_cloud_deployer_in.Promotion.Contract.{
  validate_commit-committed_response, validate_prepare-Ready,
}
use zkdeal_cloud_deployer_in.Provider.Contract.{docker_prepare-Ready, kubernetes_prepare-Ready}
use zkdeal_cloud_deployer_in.Provider.Contract.Committed.{
  docker_commit-Gives, kubernetes_commit-Gives,
}
use zkdeal_cloud_deployer_in.Provider.Model
use zkdeal_cloud_deployer_in.Provider.Probes
use zkdeal_cloud_deployer_in.Provider.Docker
use zkdeal_cloud_deployer_in.Provider.Kubernetes

module _ (env : Model.Surroundings) (provider : Probes.Config) (config : Config) where
  module _ (existing : Option String) (checkpoint : String → Model.Action (Unit {0})) where
    -- Whatever a prepare of the Docker driver returns passes the validation of a controller that is
    -- configured with the same candidate.
    pub docker_prepare-validate_prepare :
        (settings : Docker.Settings) (w : Model.World) (response : Fields)
        → (Docker.prepare settings env provider (str config.candidate_id) existing checkpoint w).0
          ≡ Model.ok response
        → validate_prepare config response ≡ ok config.candidate_id
    docker_prepare-validate_prepare settings w response h =
        let gives =
          docker_prepare-Ready env provider settings (str config.candidate_id) existing
            checkpoint in
        validate_prepare-Ready config _ response (gives.at w response h)

    -- Whatever a prepare of the Kubernetes driver returns passes the validation of a controller that
    -- is configured with the same candidate.
    pub kubernetes_prepare-validate_prepare :
        (settings : Kubernetes.Settings) (w : Model.World) (response : Fields)
        → (Kubernetes.prepare settings env provider
            (str config.candidate_id)
            existing
            checkpoint
            w).0
          ≡ Model.ok response
        → validate_prepare config response ≡ ok config.candidate_id
    kubernetes_prepare-validate_prepare settings w response h =
        let gives =
          kubernetes_prepare-Ready env provider settings (str config.candidate_id) existing
            checkpoint in
        validate_prepare-Ready config _ response (gives.at w response h)

  module _ (operation_id : String)
      (same_standby : provider.standby_coordinator_id ≡ config.standby_coordinator_id) where
    accepts_committed :
        (response : Fields)
        → response ≡ Docker.committed_response operation_id provider.standby_coordinator_id
        → validate_commit config operation_id response ≡ ok tt
    accepts_committed response e = rw (
      e,
      same_standby,
      validate_commit-committed_response config operation_id config.standby_coordinator_id,
      eq_refl config.standby_coordinator_id,
    )

    -- Whatever a commit of the Docker driver returns passes the validation of a controller that is
    -- configured with the same standby.
    pub docker_commit-validate_commit :
        (settings : Docker.Settings) (w : Model.World) (response : Fields)
        → (Docker.commit settings env provider operation_id w).0 ≡ Model.ok response
        → validate_commit config operation_id response ≡ ok tt
    docker_commit-validate_commit settings w response h =
        accepts_committed response
          ((docker_commit-Gives env provider operation_id settings).at w response h)

    -- Whatever a commit of the Kubernetes driver returns passes the validation of a controller that
    -- is configured with the same standby.
    pub kubernetes_commit-validate_commit :
        (settings : Kubernetes.Settings) (w : Model.World) (response : Fields)
        → (Kubernetes.commit settings env provider operation_id w).0 ≡ Model.ok response
        → validate_commit config operation_id response ≡ ok tt
    kubernetes_commit-validate_commit settings w response h =
        accepts_committed response
          ((kubernetes_commit-Gives env provider operation_id settings).at w response h)
