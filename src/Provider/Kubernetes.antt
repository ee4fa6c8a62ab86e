-- ===== src/Provider/Kubernetes.antt =====
-- failover-provider/provider.py, `KubernetesSettings` and `KubernetesDriver`.
use zkdeal_cloud_deployer_in.Base.{
  Bool, List, Option, String, [], false, if◌then◌else◌, map, nat_eq, none, some, ℕ, ◌==◌, ◌||◌, ◌∷◌,
}
use zkdeal_cloud_deployer_in.Base.Json.{
  Fields, Json, dict, end, eq_texts, field, get, lookup, negsuc, obj, pos, str, truthy, ℤ,
}
use zkdeal_cloud_deployer_in.Base.Decimal.{concat, decimal}
use zkdeal_cloud_deployer_in.Provider.Model.{
  Action, Command, Completed, Result, Surroundings, drop, err, finished, get_object, kube_promote,
  kube_psql, ok, patch, provider_error, pure, raise, ran, require, scale, text_or_none, timed_out,
  unexpected, value_error, when, ◌>>=◌, ◌>>◌,
}
use zkdeal_cloud_deployer_in.Provider.Probes.{
  Config, lsn_value, poll_for, verify_indexer, verify_signer_authority,
}
use zkdeal_cloud_deployer_in.Provider.Docker.{
  at_least_one, caught_up, committed_response, count_synchronous, flush_lsn, in_recovery,
  ready_response, replay_lsn,
}

pub record Settings : Type 0 where
  pub namespace : String
  pub active_deployment : String
  pub standby_deployment : String
  pub primary_db_pod : String
  pub standby_db_pod : String
  pub primary_db_statefulset : String
  pub postgres_container : String
  pub database_service : String
  pub application_service : String
  pub signer_deployment : String
  pub route_scope_label_key : String
  pub route_scope_label_value : String
  pub route_label_key : String
  pub standby_route_value : String
  pub pg_user : String
  pub pg_database : String
  pub pg_data : String

-- `value.get(name, {})`, of which a field is read next: that raises unless it is an object.
unfoldable pub object_or_empty : Option Json → Action Fields
object_or_empty none = pure end
object_or_empty (some (obj fields)) = pure fields
object_or_empty (some other) = raise unexpected

unfoldable pub section_of : Fields → String → Action Fields
section_of value name = object_or_empty (lookup value name)

module _ (settings : Settings) (env : Surroundings) where
  -- The argument vector of each fixed command.
  unfoldable pub argv : Command → List String
  argv (scale kind name replicas) =
      "kubectl"
      ∷ "--namespace"
      ∷ settings.namespace
      ∷ "scale"
      ∷ concat (kind ∷ "/" ∷ name ∷ [])
      ∷ concat ("--replicas=" ∷ decimal replicas ∷ [])
      ∷ []
  argv (get_object kind_name) =
      "kubectl" ∷ "--namespace" ∷ settings.namespace ∷ "get" ∷ kind_name ∷ "-o" ∷ "json" ∷ []
  argv (kube_psql pod query) =
      "kubectl"
      ∷ "--namespace"
      ∷ settings.namespace
      ∷ "exec"
      ∷ concat ("pod/" ∷ pod ∷ [])
      ∷ "-c"
      ∷ settings.postgres_container
      ∷ "--"
      ∷ "psql"
      ∷ "-U"
      ∷ settings.pg_user
      ∷ "-d"
      ∷ settings.pg_database
      ∷ "--set"
      ∷ "ON_ERROR_STOP=1"
      ∷ "-tAc"
      ∷ query
      ∷ []
  argv (kube_promote pod) =
      "kubectl"
      ∷ "--namespace"
      ∷ settings.namespace
      ∷ "exec"
      ∷ concat ("pod/" ∷ pod ∷ [])
      ∷ "-c"
      ∷ settings.postgres_container
      ∷ "--"
      ∷ "pg_ctl"
      ∷ "-D"
      ∷ settings.pg_data
      ∷ "promote"
      ∷ "-w"
      ∷ []
  argv (patch service selector) =
      "kubectl"
      ∷ "--namespace"
      ∷ settings.namespace
      ∷ "patch"
      ∷ concat ("service/" ∷ service ∷ [])
      ∷ "--type=merge"
      ∷ "-p"
      ∷ env.dumps (field "spec" (obj (field "selector" (obj selector) end)) end)
      ∷ []
  argv _ = []

  unfoldable pub completed : Completed → Result String
  completed timed_out = err unexpected
  completed (finished success output) =
      if success then ok output else err (provider_error 503 "kubernetes-operation-failed")

  unfoldable pub run : Command → Action String
  unfolding completed
  run command w =
      (completed (env.run w.history (argv command)), record w { history = ran command ∷ w.history })

  unfoldable pub object_or_fail : Option Json → Action Fields
  object_or_fail none = raise value_error
  object_or_fail (some (obj fields)) = pure fields
  object_or_fail (some other) = raise (provider_error 503 "kubernetes-response-invalid")

  unfoldable pub get_json : String → Action Fields
  unfolding object_or_fail
  get_json kind_name = do
    output ← run (get_object kind_name)
    object_or_fail (env.parse_json output)

  -- `int(value or 0)`
  unfoldable pub replica_count : Json → Action ℤ
  replica_count value w = (if truthy value then env.int_of value else ok (pos 0), w)

  unfoldable pub observed_replicas : String → Fields → Action ℤ
  unfolding replica_count
  observed_replicas kind value = do
    status ← section_of value "status"
    replica_count
        (get status (if kind == "deployment" then "availableReplicas" else "readyReplicas"))

  abbrev pub is_count : ℤ → ℕ → Bool
  is_count (pos n) replicas = nat_eq n replicas
  is_count (negsuc n) replicas = false

  unfoldable pub scale_round : String → String → ℕ → Action (Option (Unit {0}))
  scale_round kind name replicas = do
    value ← get_json (concat (kind ∷ "/" ∷ name ∷ []))
    observed ← observed_replicas kind value
    pure (if is_count observed replicas then some tt else none)

  unfoldable pub or_scale_timeout : Option (Unit {0}) → Action (Unit {0})
  or_scale_timeout none = raise (provider_error 503 "kubernetes-scale-timeout")
  or_scale_timeout (some done) = pure tt

  -- The selector of the stable route: a dictionary, in which the later of two equal keys counts.
  abbrev pub route_selector : List (String × String)
  route_selector =
      if settings.route_scope_label_key == settings.route_label_key
      then (settings.route_label_key, settings.standby_route_value) ∷ []
      else (settings.route_scope_label_key, settings.route_scope_label_value)
        ∷ (settings.route_label_key, settings.standby_route_value)
        ∷ []

  unfoldable pub patch_route : String → Action (Unit {0})
  patch_route service = do
    run (patch service (dict (map (λ e. (e.0, str e.1)) route_selector)))
    value ← get_json (concat ("service/" ∷ service ∷ []))
    spec ← section_of value "spec"
    require (eq_texts (get spec "selector") route_selector)
        (provider_error 503 "kubernetes-route-failed")

  unfoldable pub capture_target : (String → Action (Unit {0})) → Action String
  capture_target checkpoint = do
    synchronous ← run (kube_psql settings.primary_db_pod count_synchronous)
    require (at_least_one synchronous) (provider_error 503 "standby-not-synchronous")
    target ← run (kube_psql settings.primary_db_pod flush_lsn)
    lsn_value target
    checkpoint target
    pure target

  unfoldable pub choose_target : Option String → (String → Action (Unit {0})) → Action String
  choose_target (some target) checkpoint = pure target
  choose_target none checkpoint = capture_target checkpoint

  unfoldable pub replay_round : String → Action (Option String)
  replay_round target = do
    recovery ← run (kube_psql settings.standby_db_pod in_recovery)
    replay ← run (kube_psql settings.standby_db_pod replay_lsn)
    caught_up target recovery replay

  unfoldable pub or_stale : Option String → Action String
  or_stale none = raise (provider_error 503 "standby-replay-stale")
  or_stale (some replay) = pure replay

  unfoldable pub promote_database : Action (Unit {0})
  promote_database = do
    before ← run (kube_psql settings.standby_db_pod in_recovery)
    when (before == "t") (drop (run (kube_promote settings.standby_db_pod)))
    after ← run (kube_psql settings.standby_db_pod in_recovery)
    require (after == "f") (provider_error 503 "database-promotion-failed")

  module _ (config : Config) where
    unfoldable pub scale_workload : String → String → ℕ → Action (Unit {0})
    unfolding or_scale_timeout
    scale_workload kind name replicas = do
      require (kind == "deployment" || kind == "statefulset") (provider_error 500 "invalid-config")
      run (scale kind name replicas)
      reached ← poll_for env config.platform_timeout_seconds (scale_round kind name replicas)
      or_scale_timeout reached

    -- The signer deployment asks for no replicas.
    unfoldable pub signer_disabled : Action (Unit {0})
    unfolding replica_count
    signer_disabled = do
      signer ← get_json (concat ("deployment/" ∷ settings.signer_deployment ∷ []))
      spec ← section_of signer "spec"
      replicas ← replica_count (get spec "replicas")
      require (is_count replicas 0) (provider_error 503 "signer-enabled-too-early")

    -- The loop that waits for the standby, and its `else`.
    unfoldable pub await_replay : String → Action String
    await_replay target = do
      found ← poll_for env config.platform_timeout_seconds (replay_round target)
      or_stale found

    unfoldable pub switch_database : Action (Unit {0})
    switch_database = do
      scale_workload "statefulset" settings.primary_db_statefulset 0
      promote_database
      patch_route settings.database_service
      verify_indexer env config

    unfoldable pub prepare : Json → Option String → (String → Action (Unit {0})) → Action Fields
    prepare candidate existing_target checkpoint = do
      scale_workload "deployment" settings.active_deployment 0
      signer_disabled
      target ← choose_target (text_or_none existing_target) checkpoint
      replay ← await_replay target
      switch_database
      pure (ready_response candidate target replay)

    unfoldable pub commit : String → Action Fields
    commit operation_id = do
      scale_workload "deployment" settings.active_deployment 0
      patch_route settings.application_service
      scale_workload "deployment" settings.signer_deployment 1
      verify_signer_authority env config
      pure (committed_response operation_id config.standby_coordinator_id)
