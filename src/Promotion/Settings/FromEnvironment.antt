-- ===== src/Promotion/Settings/FromEnvironment.antt =====
-- scripts/promotion_controller.py: `Config.from_environment`.
use zkdeal_cloud_deployer_in.Base.{
  Bool, List, Option, String, [], false, ltb, nat_eq, none, not, some, true, ℕ, ◌&&◌, ◌==◌, ◌∷◌,
}
use zkdeal_cloud_deployer_in.Base.Lists.{any_of, length}
use zkdeal_cloud_deployer_in.Base.Text.{is_safe_id}
use zkdeal_cloud_deployer_in.Promotion.Settings.{
  Environment, Read, Url, bad, checked_url, checked_urls, demand, good, integer, malformed_value,
  secret, split_commas, stripped_items, text_or_empty, ◌>>=◌, ◌>>◌,
}
use zkdeal_cloud_deployer_in.Promotion.Model.{Config}

-- `urlparse(item).port` of a URL that has been checked.
abbrev pub identity : Option Url → Read (String × Option ℕ)
identity none = bad malformed_value
identity (some url) = port_of url.port
  where
    port_of : Option (Option ℕ) → Read (String × Option ℕ)
    port_of none = bad malformed_value
    port_of (some port) = good (text_or_empty url.hostname, port)

abbrev pub same_port : Option ℕ → Option ℕ → Bool
same_port none none = true
same_port (some a) (some b) = nat_eq a b
same_port a b = false

abbrev pub same_identity : String × Option ℕ → String × Option ℕ → Bool
same_identity a b = a.0 == b.0 && same_port a.1 b.1

-- `len(set(identities)) == len(identities)`
abbrev pub distinct_identities : List (String × Option ℕ) → Bool
distinct_identities [] = true
distinct_identities (a ∷ rest) = not (any_of (same_identity a) rest) && distinct_identities rest

module _ (env : Environment) where
  unfoldable pub identities : List String → Read (List (String × Option ℕ))
  identities [] = good []
  identities (url ∷ rest) = do
    first ← identity (env.urlparse url)
    others ← identities rest
    good (first ∷ others)

  abbrev pub variable_text : String → String
  variable_text name = text_or_empty (env.variable name)

  -- The witnesses of `from_environment`.
  unfoldable pub read_witnesses : Bool → Read (List String)
  read_witnesses allow_http = do
    urls ←
        checked_urls env (stripped_items (split_commas (variable_text "ACTIVE_HEALTH_URLS")))
          allow_http
    demand (not (ltb (length urls) 2)) "ACTIVE_HEALTH_URLS"
    found ← identities urls
    demand (distinct_identities found) "ACTIVE_HEALTH_URLS"
    good urls

  unfoldable pub read_id : String → Read String
  read_id name = do demand (is_safe_id (variable_text name)) name; good (variable_text name)

  -- `Config.from_environment`, less what `run` does not read: the pauses and timeouts are checked, and
  -- not kept.
  unfoldable pub from_environment : Read Config
  from_environment = do
    let allow_http = eq_variable "PROMOTION_ALLOW_INSECURE_HTTP" "acceptance-only"
    urls ← read_witnesses allow_http
    active_id ← read_id "ACTIVE_COORDINATOR_ID"
    standby_id ← read_id "STANDBY_COORDINATOR_ID"
    candidate ← read_id "PROMOTION_CANDIDATE_ID"
    demand (not (active_id == standby_id)) "STANDBY_COORDINATOR_ID"
    standby_url ←
        checked_url env (variable_text "STANDBY_HEALTH_URL") "STANDBY_HEALTH_URL" allow_http true
    provider_url ←
        checked_url env (variable_text "FAILOVER_PROVIDER_URL") "FAILOVER_PROVIDER_URL" allow_http
          false
    endpoint ←
        checked_url env (variable_text "PROMOTION_ENDPOINT") "PROMOTION_ENDPOINT" allow_http true
    provider_token ← secret env "FAILOVER_PROVIDER_TOKEN"
    approval_token ← secret env "FAILOVER_APPROVAL_TOKEN"
    principal_token ← secret env "PROMOTION_PRINCIPAL_TOKEN"
    threshold ← integer env "FAILURE_THRESHOLD" 3 3 20
    integer env "POLL_SECONDS" 10 1 60
    cycles ← integer env "MAX_MONITOR_CYCLES" 0 0 1_000_000
    rto ← integer env "MAX_RTO_SECONDS" 300 30 300
    age ← integer env "MAX_CHECKPOINT_AGE_SECONDS" 30 1 300
    integer env "REQUEST_TIMEOUT_SECONDS" 10 1 30
    good (record {
      active_health_urls = urls;
      standby_health_url = standby_url;
      failover_provider_url = provider_url;
      promotion_endpoint = endpoint;
      active_coordinator_id = active_id;
      standby_coordinator_id = standby_id;
      candidate_id = candidate;
      provider_token = provider_token;
      approval_token = approval_token;
      principal_token = principal_token;
      failure_threshold = threshold;
      max_monitor_cycles = cycles;
      max_rto_seconds = rto;
      max_checkpoint_age_seconds = age;
      armed = eq_variable "PROMOTION_CONTROLLER_ARMED" "true";
    })
    where
      eq_variable : String → String → Bool
      eq_variable name expected = eq_option (env.variable name) expected
        where
          eq_option : Option String → String → Bool
          eq_option none text = false
          eq_option (some s) text = s == text
