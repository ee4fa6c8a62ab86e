-- ===== src/Provider/Contract/Lawful.antt =====
-- The two drivers of failover-provider/provider.py as implementations of the class `Driver`.
use zkdeal_cloud_deployer_in.Provider.Model.{Surroundings}
use zkdeal_cloud_deployer_in.Provider.Probes.{Config}
use zkdeal_cloud_deployer_in.Provider.Operations.{Driver}
use zkdeal_cloud_deployer_in.Provider.Replay.{IsLawful}
use zkdeal_cloud_deployer_in.Provider.Untouched.DockerDriver.{
  docker_commit-Leaves, docker_prepare-Leaves,
}
use zkdeal_cloud_deployer_in.Provider.Untouched.KubernetesDriver.{
  kubernetes_commit-Leaves, kubernetes_prepare-Leaves,
}
use zkdeal_cloud_deployer_in.Provider.Docker
use zkdeal_cloud_deployer_in.Provider.Kubernetes

-- `DockerDriver(config, settings)`
abbrev pub docker_driver : Docker.Settings → Surroundings → Config → Driver
docker_driver settings env config = record {
  prepare = Docker.prepare settings env config;
  commit = Docker.commit settings env config;
}

-- `KubernetesDriver(config, settings)`
abbrev pub kubernetes_driver : Kubernetes.Settings → Surroundings → Config → Driver
kubernetes_driver settings env config = record {
  prepare = Kubernetes.prepare settings env config;
  commit = Kubernetes.commit settings env config;
}

module _ (env : Surroundings) (config : Config) where
  pub docker_driver-IsLawful :
      (settings : Docker.Settings) → IsLawful (docker_driver settings env config)
  docker_driver-IsLawful settings = record {
    prepare_leaves = λ I checkpoint kept candidate existing.
        docker_prepare-Leaves settings env checkpoint kept config candidate existing;
    commit_leaves = λ I operation_id. docker_commit-Leaves settings env config operation_id;
  }

  pub kubernetes_driver-IsLawful :
      (settings : Kubernetes.Settings) → IsLawful (kubernetes_driver settings env config)
  kubernetes_driver-IsLawful settings = record {
    prepare_leaves = λ I checkpoint kept candidate existing.
        kubernetes_prepare-Leaves settings env config checkpoint kept candidate existing;
    commit_leaves = λ I operation_id. kubernetes_commit-Leaves settings env config operation_id;
  }
