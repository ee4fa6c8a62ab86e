-- ===== src/Provider/Settings.antt =====
-- failover-provider/provider.py: `safe_value` and the three `from_environment`. `secret`, `integer`
-- and `checked_url` do what those of the controller do, and are taken from there; a file is absent
-- here unless its name leads to a regular one.
pub mod Sound
use zkdeal_cloud_deployer_in.Base.{
  Bool, List, String, [], false, ltb, nat_eq, none, not, some, true, ℕ, ◌&&◌, ◌==◌, ◌||◌, ◌∷◌,
}
use zkdeal_cloud_deployer_in.Base.Lists.{all_of, length}
use zkdeal_cloud_deployer_in.Base.Text.{
  codes, head_tail, is_lower_digit, is_safe_id, is_upper, split_slash,
}
use zkdeal_cloud_deployer_in.Promotion.Settings.{
  Environment, Read, checked_url, demand, good, integer, is_absent, secret, split_commas,
  stripped_items, ◌>>=◌, ◌>>◌,
}
use zkdeal_cloud_deployer_in.Provider.Probes.{Config}
use zkdeal_cloud_deployer_in.Provider.Docker
use zkdeal_cloud_deployer_in.Provider.Kubernetes

-- `SAFE_RESOURCE`, `^[a-z0-9][a-z0-9.-]{0,62}$`
unfoldable pub is_safe_resource : String → Bool
unfolding head_tail is_lower_digit
is_safe_resource s =
    head_tail is_lower_digit (λ c. is_lower_digit c || (nat_eq c b'.' || nat_eq c b'-')) 0 62
      (codes s)

-- `[A-Za-z0-9][A-Za-z0-9_.-]{0,62}`
unfoldable pub is_label_name : List ℕ → Bool
unfolding head_tail is_lower_digit is_upper
is_label_name cs =
    head_tail (λ c. is_lower_digit c || is_upper c)
      (λ c. (is_lower_digit c || is_upper c) || (nat_eq c b'_' || (nat_eq c b'.' || nat_eq c b'-')))
      0 62 cs

abbrev pub is_label_prefix : List ℕ → Bool
is_label_prefix cs =
    not (nat_eq (length cs) 0)
    && all_of (λ c. is_lower_digit c || (nat_eq c b'.' || nat_eq c b'-')) cs

-- `SAFE_LABEL_KEY`
unfoldable pub is_safe_label_key : String → Bool
unfolding is_label_name split_slash is_lower_digit
is_safe_label_key s = elim (split_slash (codes s)) [
  | none ↦ is_label_name (codes s)
  | some (prefix, name) ↦ is_label_prefix prefix && is_label_name name
]

module _ (env : Environment) where
  abbrev pub variable_or : String → String → String
  variable_or name default = elim (env.variable name) [ none ↦ default | some s ↦ s ]

  unfoldable pub safe_value : String → (String → Bool) → Read String
  safe_value name pattern = do
    demand (pattern (variable_or name "")) name
    good (variable_or name "")

  -- `DockerSettings.from_environment`
  unfoldable pub docker_settings : Read Docker.Settings
  docker_settings = do
    project ← safe_value "DOCKER_COMPOSE_PROJECT" is_safe_id
    network ← safe_value "DOCKER_FAILOVER_NETWORK" is_safe_id
    active_service ← safe_value "DOCKER_ACTIVE_SERVICE" is_safe_resource
    standby_service ← safe_value "DOCKER_STANDBY_SERVICE" is_safe_resource
    primary_db_service ← safe_value "DOCKER_PRIMARY_DB_SERVICE" is_safe_resource
    standby_db_service ← safe_value "DOCKER_STANDBY_DB_SERVICE" is_safe_resource
    signer_service ← safe_value "DOCKER_SIGNER_SERVICE" is_safe_resource
    database_alias ← safe_value "DOCKER_DATABASE_ALIAS" is_safe_resource
    application_alias ← safe_value "DOCKER_APPLICATION_ALIAS" is_safe_resource
    pg_user ← safe_value "FAILOVER_PGUSER" is_safe_resource
    pg_database ← safe_value "FAILOVER_PGDATABASE" is_safe_resource
    good (record {
      project = project;
      network = network;
      active_service = active_service;
      standby_service = standby_service;
      primary_db_service = primary_db_service;
      standby_db_service = standby_db_service;
      signer_service = signer_service;
      database_alias = database_alias;
      application_alias = application_alias;
      pg_user = pg_user;
      pg_database = pg_database;
      pg_data = variable_or "FAILOVER_PGDATA" "/var/lib/postgresql/data";
    })

  -- `KubernetesSettings.from_environment`
  unfoldable pub kubernetes_settings : Read Kubernetes.Settings
  kubernetes_settings = do
    namespace ← safe_value "K8S_FAILOVER_NAMESPACE" is_safe_resource
    active_deployment ← safe_value "K8S_ACTIVE_DEPLOYMENT" is_safe_resource
    standby_deployment ← safe_value "K8S_STANDBY_DEPLOYMENT" is_safe_resource
    primary_db_pod ← safe_value "K8S_PRIMARY_DB_POD" is_safe_resource
    standby_db_pod ← safe_value "K8S_STANDBY_DB_POD" is_safe_resource
    primary_db_statefulset ← safe_value "K8S_PRIMARY_DB_STATEFULSET" is_safe_resource
    postgres_container ← safe_value "K8S_POSTGRES_CONTAINER" is_safe_resource
    database_service ← safe_value "K8S_DATABASE_SERVICE" is_safe_resource
    application_service ← safe_value "K8S_APPLICATION_SERVICE" is_safe_resource
    signer_deployment ← safe_value "K8S_SIGNER_DEPLOYMENT" is_safe_resource
    route_scope_label_key ← safe_value "K8S_ROUTE_SCOPE_LABEL_KEY" is_safe_label_key
    route_scope_label_value ← safe_value "K8S_ROUTE_SCOPE_LABEL_VALUE" is_safe_resource
    route_label_key ← safe_value "K8S_ROUTE_LABEL_KEY" is_safe_label_key
    standby_route_value ← safe_value "K8S_STANDBY_ROUTE_VALUE" is_safe_resource
    pg_user ← safe_value "FAILOVER_PGUSER" is_safe_resource
    pg_database ← safe_value "FAILOVER_PGDATABASE" is_safe_resource
    good (record {
      namespace = namespace;
      active_deployment = active_deployment;
      standby_deployment = standby_deployment;
      primary_db_pod = primary_db_pod;
      standby_db_pod = standby_db_pod;
      primary_db_statefulset = primary_db_statefulset;
      postgres_container = postgres_container;
      database_service = database_service;
      application_service = application_service;
      signer_deployment = signer_deployment;
      route_scope_label_key = route_scope_label_key;
      route_scope_label_value = route_scope_label_value;
      route_label_key = route_label_key;
      standby_route_value = standby_route_value;
      pg_user = pg_user;
      pg_database = pg_database;
      pg_data = variable_or "FAILOVER_PGDATA" "/var/lib/postgresql/data";
    })

  -- The checks of every URL of a list, under one name.
  unfoldable pub service_urls : List String → String → Bool → Bool → Read (List String)
  service_urls [] name allow_http cluster_http = good []
  service_urls (value ∷ rest) name allow_http cluster_http = do
    url ← checked_url env value name allow_http cluster_http
    others ← service_urls rest name allow_http cluster_http
    good (url ∷ others)

  unfoldable pub url_list : String → Bool → Bool → Read (List String)
  url_list name allow_http cluster_http =
      service_urls (stripped_items (split_commas (variable_or name ""))) name allow_http
        cluster_http

  unfoldable pub service_url : String → Bool → Read String
  service_url name allow_http = checked_url env (variable_or name "") name allow_http true

  -- `Config.from_environment`, less what the operations do not read: the request timeout and the port
  -- are checked, and not kept.
  unfoldable pub provider_config : Read Config
  provider_config = do
    let allow_http = variable_or "FAILOVER_PROVIDER_ALLOW_INSECURE_HTTP" "" == "acceptance-only"
    let platform = variable_or "FAILOVER_PLATFORM" ""
    demand (platform == "docker" || platform == "kubernetes") "FAILOVER_PLATFORM"
    urls ← url_list "ACTIVE_HEALTH_URLS" allow_http false
    demand (not (ltb (length urls) 2)) "ACTIVE_HEALTH_URLS"
    signer_urls ← url_list "SIGNER_AUTHORITY_HEALTH_URLS" allow_http true
    demand (not (ltb (length signer_urls) 1)) "SIGNER_AUTHORITY_HEALTH_URLS"
    let active_id = variable_or "ACTIVE_COORDINATOR_ID" ""
    let standby_id = variable_or "STANDBY_COORDINATOR_ID" ""
    demand ((is_safe_id active_id && is_safe_id standby_id) && not (active_id == standby_id))
        "ACTIVE_COORDINATOR_ID"
    demand
        (allow_http
          || not (
              is_absent (env.variable "FAILOVER_PROVIDER_TLS_CERT_FILE")
              || is_absent (env.variable "FAILOVER_PROVIDER_TLS_KEY_FILE")))
        "FAILOVER_PROVIDER_TLS_CERT_FILE"
    standby_url ← service_url "STANDBY_HEALTH_URL" allow_http
    indexer_url ← service_url "INDEXER_FRESHNESS_URL" allow_http
    provider_token ← secret env "FAILOVER_PROVIDER_TOKEN"
    approval_token ← secret env "FAILOVER_APPROVAL_TOKEN"
    integer env "REQUEST_TIMEOUT_SECONDS" 10 1 30
    timeout ← integer env "PLATFORM_TIMEOUT_SECONDS" 120 10 240
    integer env "FAILOVER_PROVIDER_LISTEN_PORT" 8443 1024 65535
    good (record {
      platform = platform;
      active_health_urls = urls;
      standby_health_url = standby_url;
      indexer_freshness_url = indexer_url;
      signer_authority_health_urls = signer_urls;
      active_coordinator_id = active_id;
      standby_coordinator_id = standby_id;
      provider_token = provider_token;
      approval_token = approval_token;
      platform_timeout_seconds = timeout;
    })
