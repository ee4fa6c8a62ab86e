-- ===== src/Tests/ProviderConfiguration.antt =====
-- failover-provider/provider.py: a configuration that is read from an environment.
use zkdeal_cloud_deployer_in.Base.{
  List, Option, String, [], false, if◌then◌else◌, none, refl, some, ◌==◌, ◌∷◌, ◌≡◌,
}
use zkdeal_cloud_deployer_in.Base.Text.{is_safe_id}
use zkdeal_cloud_deployer_in.Promotion.Settings.{
  Environment, Url, checked_url, demand, good, in_range, integer, long_enough, present, secret,
  secret_text, ◌>>=◌,
}
use zkdeal_cloud_deployer_in.Provider.Probes.{Config}
use zkdeal_cloud_deployer_in.Provider.Settings.{
  provider_config, service_url, service_urls, url_list,
}
use zkdeal_cloud_deployer_in.Provider.Settings.Sound.{SoundProvider, provider_config-SoundProvider}

abbrev variables : List (String × String)
variables =
    ("FAILOVER_PLATFORM", "docker")
    ∷ ("FAILOVER_PROVIDER_ALLOW_INSECURE_HTTP", "acceptance-only")
    ∷ ("ACTIVE_HEALTH_URLS", "http://w1,http://w2")
    ∷ ("SIGNER_AUTHORITY_HEALTH_URLS", "http://signer")
    ∷ ("ACTIVE_COORDINATOR_ID", "coordinator-a")
    ∷ ("STANDBY_COORDINATOR_ID", "coordinator-b")
    ∷ ("STANDBY_HEALTH_URL", "http://standby")
    ∷ ("INDEXER_FRESHNESS_URL", "http://indexer/")
    ∷ ("FAILOVER_PROVIDER_TOKEN", "provider-token-1")
    ∷ ("FAILOVER_APPROVAL_TOKEN", "approval-token-1")
    ∷ []

abbrev value_of : List (String × String) → String → Option String
value_of [] name = none
value_of ((other, value) ∷ rest) name = if other == name then some value else value_of rest name

abbrev plain_url : Url
plain_url = record {
  scheme = "http";
  hostname = some "w1";
  port = some none;
  has_credentials = false;
  has_fragment = false;
}

abbrev surroundings : Environment
surroundings = record {
  variable = value_of variables;
  file = λ name. none;
  int_of = λ raw. none;
  urlparse = λ value. some plain_url;
}

abbrev configured : Config
configured = record {
  platform = "docker";
  active_health_urls = "http://w1" ∷ "http://w2" ∷ [];
  standby_health_url = "http://standby";
  indexer_freshness_url = "http://indexer";
  signer_authority_health_urls = "http://signer" ∷ [];
  active_coordinator_id = "coordinator-a";
  standby_coordinator_id = "coordinator-b";
  provider_token = "provider-token-1";
  approval_token = "approval-token-1";
  platform_timeout_seconds = 120;
}

environment_is_read : provider_config surroundings ≡ good configured
unfolding provider_config url_list service_urls service_url checked_url secret secret_text
    long_enough integer in_range present demand ◌>>=◌ is_safe_id
environment_is_read = refl

provider_config-SoundProvider_example : SoundProvider configured
provider_config-SoundProvider_example =
    provider_config-SoundProvider surroundings configured environment_is_read
