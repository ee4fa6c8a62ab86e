-- ===== src/Tests/Ending.antt =====
-- failover-provider/provider.py: the rounds of its loops on the host and on the cluster.
use zkdeal_cloud_deployer_in.Base.Json.{Json, arr, bool, float, int, null, obj, str}
use zkdeal_cloud_deployer_in.Provider.Ending.{Ended, Paced}
use zkdeal_cloud_deployer_in.Provider.Ending.Methods.{
  BothEnd, docker_methods_end, kubernetes_methods_end,
}
use zkdeal_cloud_deployer_in.Provider.Contract.Lawful.{docker_driver, kubernetes_driver}
use zkdeal_cloud_deployer_in.Tests.Platform.{
  host, host_config, host_settings, pause_lasts, pauses_grow,
}
use zkdeal_cloud_deployer_in.Tests.Cluster.{cluster, cluster_settings, integer}

host-Paced : Paced host
host-Paced = record { goes_on = pauses_grow; sleeps = pause_lasts; converts = λ value. tt }

integer-Ended : (value : Json) → Ended (integer value)
integer-Ended (int z) = tt
integer-Ended null = tt
integer-Ended (bool b) = tt
integer-Ended (float t) = tt
integer-Ended (str t) = tt
integer-Ended (arr a) = tt
integer-Ended (obj o) = tt

cluster-Paced : Paced cluster
cluster-Paced = record { goes_on = pauses_grow; sleeps = pause_lasts; converts = integer-Ended }

docker_methods_end_example : BothEnd host host_config (docker_driver host_settings host host_config)
docker_methods_end_example = docker_methods_end host host-Paced host_config host_settings

kubernetes_methods_end_example :
    BothEnd cluster host_config (kubernetes_driver cluster_settings cluster host_config)
kubernetes_methods_end_example =
    kubernetes_methods_end cluster cluster-Paced host_config cluster_settings
