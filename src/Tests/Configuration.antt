-- ===== src/Tests/Configuration.antt =====
-- scripts/promotion_controller.py: a configuration that is read from an environment.
use zkdeal_cloud_deployer_in.Base.{
  List, Option, String, [], false, if◌then◌else◌, none, refl, some, ◌==◌, ◌∷◌, ◌≡◌,
}
use zkdeal_cloud_deployer_in.Base.Text.{begins, codes, is_safe_id}
use zkdeal_cloud_deployer_in.Base.Json.{pos}
use zkdeal_cloud_deployer_in.Promotion.Settings.{
  Environment, Url, checked_url, checked_urls, demand, good, in_range, integer, long_enough,
  present, secret, secret_text, ◌>>=◌,
}
use zkdeal_cloud_deployer_in.Promotion.Settings.FromEnvironment.{
  from_environment, identities, read_id, read_witnesses,
}
use zkdeal_cloud_deployer_in.Promotion.Settings.Sound.{Sound, from_environment-Sound}
use zkdeal_cloud_deployer_in.Promotion.Model.{Config}

abbrev variables : List (String × String)
variables =
    ("ACTIVE_HEALTH_URLS", "https://w1/, https://w2")
    ∷ ("ACTIVE_COORDINATOR_ID", "coordinator-a")
    ∷ ("STANDBY_COORDINATOR_ID", "coordinator-b")
    ∷ ("PROMOTION_CANDIDATE_ID", "candidate-1")
    ∷ ("STANDBY_HEALTH_URL", "http://standby")
    ∷ ("FAILOVER_PROVIDER_URL", "https://provider/v1")
    ∷ ("PROMOTION_ENDPOINT", "http://owner")
    ∷ ("FAILOVER_PROVIDER_TOKEN", "provider-token-1")
    ∷ ("FAILOVER_APPROVAL_TOKEN_FILE", "/run/approval")
    ∷ ("PROMOTION_PRINCIPAL_TOKEN", "principal-token-1")
    ∷ ("MAX_MONITOR_CYCLES", "5")
    ∷ []

abbrev value_of : List (String × String) → String → Option String
value_of [] name = none
value_of ((other, value) ∷ rest) name = if other == name then some value else value_of rest name

abbrev split_url : String → Option Url
split_url value =
    let is_https = begins (codes "https:") (codes value) in
    some (record {
      scheme = if is_https then "https" else "http";
      hostname = some (if value == "https://w2" then "w2" else "w1");
      port = some none;
      has_credentials = false;
      has_fragment = false;
    })

abbrev surroundings : Environment
surroundings = record {
  variable = value_of variables;
  file = λ name. some " approval-token-1\n";
  int_of = λ raw. if raw == "5" then some (pos 5) else none;
  urlparse = split_url;
}

abbrev configured : Config
configured = record {
  active_health_urls = "https://w1" ∷ "https://w2" ∷ [];
  standby_health_url = "http://standby";
  failover_provider_url = "https://provider/v1";
  promotion_endpoint = "http://owner";
  active_coordinator_id = "coordinator-a";
  standby_coordinator_id = "coordinator-b";
  candidate_id = "candidate-1";
  provider_token = "provider-token-1";
  approval_token = "approval-token-1";
  principal_token = "principal-token-1";
  failure_threshold = 3;
  max_monitor_cycles = 5;
  max_rto_seconds = 300;
  max_checkpoint_age_seconds = 30;
  armed = false;
}

environment_is_read : from_environment surroundings ≡ good configured
unfolding from_environment read_witnesses read_id checked_urls checked_url identities secret
    secret_text long_enough integer in_range present demand ◌>>=◌ is_safe_id
environment_is_read = refl

from_environment-Sound_example : Sound configured
from_environment-Sound_example = from_environment-Sound surroundings configured environment_is_read
