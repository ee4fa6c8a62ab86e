-- ===== src/Faults/Startup/Loading.antt =====
-- fault-control/fault_control.py, `load_topology`.
use zkdeal_cloud_deployer_in.Base.Outcome.{err, ok, some_or, ◌>>=◌, ◌>>◌}
use zkdeal_cloud_deployer_in.Faults.Model.{Result, configuration_error}
use zkdeal_cloud_deployer_in.Base.{
  Bool, List, String, [], leb, ltb, map, nat_eq, not, within, ◌&&◌, ◌==◌, ◌||◌, ◌∷◌,
}
use zkdeal_cloud_deployer_in.Base.Lists.{all_of, any_of, distinct, length, subset}
use zkdeal_cloud_deployer_in.Base.Text.{codes, is_hex64, is_lower_digit, is_upper}
use zkdeal_cloud_deployer_in.Base.Json.{Fields, Json, arr, eq_one, get, has_exactly, names}
use zkdeal_cloud_deployer_in.Faults.Documents.{
  as_fields, as_text, bounded_int, exact_keys, is_candidate, is_hosted_token, text_in,
}
use zkdeal_cloud_deployer_in.Faults.Journal.{parse_record}
use zkdeal_cloud_deployer_in.Faults.Topology.{Topology, is_given}
use zkdeal_cloud_deployer_in.Faults.Startup.Targets.{Reach, all_texts, count, read_docker}
use zkdeal_cloud_deployer_in.Faults.Startup.Profiles.{allowed_load_profiles, read_profiles}
use zkdeal_cloud_deployer_in.Faults.Startup.{Disk, demand, normalized_url}

-- A text that passes a test
unfoldable pub tested_text : (String → Bool) → Json → Result String
unfolding as_text
tested_text test value = do text ← as_text value configuration_error; demand (test text); ok text

-- `[A-Za-z0-9.-]{1,253}`
unfoldable pub is_host : String → Bool
unfolding is_lower_digit is_upper
is_host host =
    all_of (λ c. is_lower_digit c || is_upper c || any_of (nat_eq c) (codes ".-")) (codes host)
    && within 1 (length (codes host)) 253

unfoldable pub read_hosts : Json → Result (List String)
unfolding all_texts is_host
read_hosts (arr items) = do
  demand (leb 2 (count items) && leb (count items) 32)
  hosts ← all_texts items
  demand (all_of is_host hosts && distinct hosts)
  ok hosts
read_hosts other = err configuration_error

-- What only a release candidate has to have.
abbrev required_restart_targets : List String
required_restart_targets =
    "coordinator-active" ∷ "headless-node" ∷ "prover" ∷ "indexer" ∷ "minio" ∷ "postgres-primary"
    ∷ "front-door" ∷ []

abbrev is_complete : Reach → Bool
is_complete reach =
    is_given reach.socket
    && subset required_restart_targets (map (λ t. t.0) reach.targets)
    && is_given reach.network
    && ltb 0 (length reach.aliases)

abbrev has_profiles : String → List String → Bool
has_profiles classification profiles =
    subset profiles allowed_load_profiles
    && (not (classification == "release-candidate") || subset allowed_load_profiles profiles)

module _ (disk : Disk) where
  -- The checks of the object that the file holds.
  unfoldable pub read_topology : String → Fields → Result Topology
  unfolding text_in tested_text as_fields read_hosts bounded_int read_profiles is_candidate is_hex64
      is_hosted_token
  read_topology observed value = do
    exact_keys value (
        "schemaVersion" ∷ "classification" ∷ "candidateId" ∷ "planSha256" ∷ "hostedIntegrationToken"
        ∷ "faultControlTokenSha256" ∷ "allowedHosts" ∷ "rpcProviders" ∷ "docker" ∷ "loadProfiles"
        ∷ "requestTimeoutSeconds" ∷ [])
    demand (eq_one (get value "schemaVersion"))
    classification ←
        text_in configuration_error (get value "classification")
          ("release-candidate" ∷ "non-release-fixture" ∷ [])
    candidate_id ← tested_text is_candidate (get value "candidateId")
    plan_sha256 ← tested_text is_hex64 (get value "planSha256")
    hosted_token ← tested_text is_hosted_token (get value "hostedIntegrationToken")
    auth_hash ← tested_text is_hex64 (get value "faultControlTokenSha256")
    hosts ← read_hosts (get value "allowedHosts")
    providers ← as_fields (get value "rpcProviders") configuration_error
    demand (has_exactly providers ("rpc-a" ∷ "rpc-b" ∷ []))
    rpc_a ← normalized_url disk (get providers "rpc-a") hosts
    rpc_b ← normalized_url disk (get providers "rpc-b") hosts
    demand (not (rpc_a == rpc_b))
    reach ← read_docker (get value "docker")
    raw_profiles ← as_fields (get value "loadProfiles") configuration_error
    demand (has_profiles classification (names raw_profiles))
    profiles ← read_profiles disk hosts raw_profiles
    timeout ← bounded_int (get value "requestTimeoutSeconds") 1 30
    demand (not (classification == "release-candidate") || is_complete reach)
    ok (record {
      classification = classification;
      candidate_id = candidate_id;
      plan_sha256 = plan_sha256;
      hosted_token = hosted_token;
      auth_token_sha256 = auth_hash;
      allowed_hosts = hosts;
      rpc_a = rpc_a;
      rpc_b = rpc_b;
      docker_socket = reach.socket;
      restart_targets = reach.targets;
      partition_network = reach.network;
      partition_targets = reach.aliases;
      load_profiles = profiles;
      request_timeout_seconds = timeout;
      topology_sha256 = observed;
    })

  -- `load_topology`
  unfoldable pub load_topology : String → String → Result Topology
  unfolding is_hex64 parse_record
  load_topology path expected_sha256 = do
    file ← some_or (disk.regular path) configuration_error
    demand (is_hex64 expected_sha256 && file.digest == expected_sha256)
    value ← parse_record file.content
    read_topology file.digest value
