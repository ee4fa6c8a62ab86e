-- ===== src/Tests/Cluster.antt =====
-- A Kubernetes cluster for runs of failover-provider/provider.py: every workload has the replicas that
-- it was last scaled to, and its services have the standby's selector.
use zkdeal_cloud_deployer_in.Base.{
  Bool, List, String, [], false, if◌then◌else◌, nat_eq, some, true, ℕ, ◌==◌, ◌∷◌,
}
use zkdeal_cloud_deployer_in.Base.Json.{Fields, Json, dict, int, num, obj, str, ℤ}
use zkdeal_cloud_deployer_in.Provider.Model.{
  Completed, History, Result, Surroundings, err, finished, kube_promote, ok, ran, scale,
  value_error,
}
use zkdeal_cloud_deployer_in.Tests.Platform.{host}
use zkdeal_cloud_deployer_in.Provider.Docker
use zkdeal_cloud_deployer_in.Provider.Kubernetes

abbrev pub cluster_settings : Kubernetes.Settings
cluster_settings = record {
  namespace = "cloud";
  active_deployment = "active";
  standby_deployment = "standby";
  primary_db_pod = "primary-0";
  standby_db_pod = "standby-0";
  primary_db_statefulset = "primary";
  postgres_container = "postgres";
  database_service = "database";
  application_service = "application";
  signer_deployment = "signer";
  route_scope_label_key = "app";
  route_scope_label_value = "cloud";
  route_label_key = "node";
  standby_route_value = "standby";
  pg_user = "app";
  pg_database = "app";
  pg_data = "/data";
}

abbrev last_scale : History → ℕ
last_scale [] = 0
last_scale (ran (scale kind name replicas) ∷ h) = replicas
last_scale (e ∷ h) = last_scale h

abbrev was_promoted : History → Bool
was_promoted [] = false
was_promoted (ran (kube_promote pod) ∷ h) = true
was_promoted (e ∷ h) = was_promoted h

abbrev answer_query : History → String → String
answer_query h query =
    if query == Docker.in_recovery
    then (if was_promoted h then "f" else "t")
    else if query == Docker.flush_lsn
    then "0/10"
    else if query == Docker.replay_lsn
    then "0/20"
    else "1"

abbrev cluster_run : History → List String → Completed
cluster_run h
      (kubectl ∷ option ∷ namespace ∷ verb ∷ pod ∷ c ∷ container ∷ dashes ∷ program ∷ u ∷ user ∷ d
        ∷ database ∷ set ∷ stop_on ∷ tac ∷ query ∷ []) =
    finished true (answer_query h query)
cluster_run h other = finished true (if nat_eq (last_scale h) 0 then "stopped" else "running")

abbrev workload : ℕ → Fields
workload n = dict (
    ("status", obj (dict (("availableReplicas", num n) ∷ ("readyReplicas", num n) ∷ [])))
    ∷ (
      "spec",
      obj (
          dict (
            ("replicas", num 0)
            ∷ ("selector", obj (dict (("app", str "cloud") ∷ ("node", str "standby") ∷ [])))
            ∷ [])),
    )
    ∷ [])

abbrev pub integer : Json → Result ℤ
integer (int z) = ok z
integer other = err value_error

abbrev pub cluster : Surroundings
cluster = record {
  run = cluster_run;
  open_url = host.open_url;
  resolve = host.resolve;
  monotonic = host.monotonic;
  wall = host.wall;
  splitlines = host.splitlines;
  parse_json = λ text. some (obj (workload (if text == "stopped" then 0 else 1)));
  dumps = host.dumps;
  int_of = integer;
  sha256 = host.sha256;
  canonical_hash = host.canonical_hash;
}
