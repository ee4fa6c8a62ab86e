-- ===== src/Provider/Contract/Committed.antt =====
-- What the drivers of failover-provider/provider.py answer to a commit.
use zkdeal_cloud_deployer_in.Base.{String, refl, ◌≡◌}
use zkdeal_cloud_deployer_in.Base.Json.{Fields}
use zkdeal_cloud_deployer_in.Provider.Model.{Surroundings}
use zkdeal_cloud_deployer_in.Provider.Probes.{Config}
use zkdeal_cloud_deployer_in.Provider.Rules.{Gives, Gives-pure, Gives-then}
use zkdeal_cloud_deployer_in.Provider.Docker
use zkdeal_cloud_deployer_in.Provider.Kubernetes

module _ (env : Surroundings) (config : Config) (operation_id : String) where
  -- The answer names the operation and the standby of the configuration.
  abbrev Names : Fields → Type 0
  Names response = response ≡ Docker.committed_response operation_id config.standby_coordinator_id

  pub docker_commit-Gives :
      (settings : Docker.Settings) → Gives Names (Docker.commit settings env config operation_id)
  unfolding Docker.commit
  docker_commit-Gives settings = Gives-then _ _ λ active. Gives-then _ _ λ standby.
      Gives-then _ _ λ signer. Gives-then _ _ λ u.
        Gives-then _ _
          λ u. Gives-then _ _ λ u. Gives-then _ _ λ u. Gives-then _ _ λ u. Gives-pure _ refl

  pub kubernetes_commit-Gives :
      (settings : Kubernetes.Settings)
      → Gives Names (Kubernetes.commit settings env config operation_id)
  unfolding Kubernetes.commit
  kubernetes_commit-Gives settings =
      Gives-then _ _
        λ u. Gives-then _ _ λ u. Gives-then _ _ λ u. Gives-then _ _ λ u. Gives-pure _ refl
