-- ===== src/Tests/FaultStartup.antt =====
-- fault-control/fault_control.py: the topology file of a fixture with one container.
use zkdeal_cloud_deployer_in.Base.Outcome.{check, ok, some_or, ◌>>=◌}
use zkdeal_cloud_deployer_in.Faults.Model.{Surroundings, World, document}
use zkdeal_cloud_deployer_in.Base.{
  List, Option, String, [], false, if◌then◌else◌, none, refl, some, true, ◌==◌, ◌∷◌, ◌≡◌,
}
use zkdeal_cloud_deployer_in.Base.Json.{Fields, arr, dict, end, item, nil, num, obj, str}
use zkdeal_cloud_deployer_in.Base.Decimal.{concat}
use zkdeal_cloud_deployer_in.Faults.Documents.{exact_keys, is_container_name}
use zkdeal_cloud_deployer_in.Faults.Topology.{Topology, container_of}
use zkdeal_cloud_deployer_in.Faults.Startup.Confined.{
  DockerConfined, build_controller-DockerConfined,
}
use zkdeal_cloud_deployer_in.Faults.Startup.Building.{
  build_controller, build_controller-Isolated, is_value,
}
use zkdeal_cloud_deployer_in.Faults.Controller.{Controller, execute_fault}
use zkdeal_cloud_deployer_in.Faults.Startup.{Disk, SplitUrl, normalized_url, read_secret}
use zkdeal_cloud_deployer_in.Faults.Startup.Loading.{load_topology, read_topology}
use zkdeal_cloud_deployer_in.Faults.Startup.Isolated.{Isolated}
use zkdeal_cloud_deployer_in.Faults.Startup.Targets.{read_docker}

abbrev hex32 : String
hex32 = "0123456789abcdef0123456789abcdef"

abbrev hex64 : String
hex64 = concat (hex32 ∷ hex32 ∷ [])

abbrev secret : String
secret = concat ("eph_" ∷ hex32 ∷ [])

abbrev fixture : Fields
fixture = dict (
    ("schemaVersion", num 1)
    ∷ ("classification", str "non-release-fixture")
    ∷ ("candidateId", str "candidate-1")
    ∷ ("planSha256", str hex64)
    ∷ ("hostedIntegrationToken", str (concat ("sha256:" ∷ hex64 ∷ [])))
    ∷ ("faultControlTokenSha256", str hex64)
    ∷ ("allowedHosts", arr (item (str "rpc-a") (item (str "rpc-b") nil)))
    ∷ (
      "rpcProviders",
      obj (dict (("rpc-a", str "http://rpc-a") ∷ ("rpc-b", str "http://rpc-b") ∷ [])),
    )
    ∷ (
      "docker",
      obj (
          dict (
            ("socket", str "/var/run/docker.sock")
            ∷ ("containerPrefix", str "zk-")
            ∷ ("restartTargets", obj (dict (("indexer", str "zk-indexer") ∷ [])))
            ∷ ("partitionNetwork", str "zk-net")
            ∷ ("partitionTargets", arr (item (str "indexer") nil))
            ∷ [])),
    )
    ∷ ("loadProfiles", obj end)
    ∷ ("requestTimeoutSeconds", num 10)
    ∷ [])

abbrev host_url : String → SplitUrl
host_url host = record {
  scheme = "http";
  netloc = host;
  path = "";
  query = "";
  fragment = "";
  hostname = some host;
  username = none;
  password = none;
}

abbrev disk : Disk
disk = record {
  regular = λ path. some (record {
    exposed = false;
    size = 900;
    digest = hex64;
    text = some secret;
    content = document fixture;
  });
  urlsplit = λ text. some (host_url (if text == "http://rpc-a" then "rpc-a" else "rpc-b"));
  urlunsplit = λ scheme netloc. concat (scheme ∷ "://" ∷ netloc ∷ []);
  sha256 = λ text. hex64;
  canonical_size = λ body. 100;
}

abbrev loaded : Topology
loaded = record {
  classification = "non-release-fixture";
  candidate_id = "candidate-1";
  plan_sha256 = hex64;
  hosted_token = concat ("sha256:" ∷ hex64 ∷ []);
  auth_token_sha256 = hex64;
  allowed_hosts = "rpc-a" ∷ "rpc-b" ∷ [];
  rpc_a = "http://rpc-a";
  rpc_b = "http://rpc-b";
  docker_socket = some "/var/run/docker.sock";
  restart_targets = ("indexer", "zk-indexer") ∷ [];
  partition_network = some "zk-net";
  partition_targets = "indexer" ∷ [];
  load_profiles = [];
  request_timeout_seconds = 10;
  topology_sha256 = hex64;
}

loaded_test : load_topology disk "/topology.json" hex64 ≡ ok loaded
unfolding load_topology read_topology ◌>>=◌ check some_or exact_keys normalized_url read_docker
loaded_test = refl

abbrev settings : List (String × String)
settings =
    ("FAULT_CONTROL_TOPOLOGY_SHA256", hex64)
    ∷ ("FAULT_CONTROL_CANDIDATE_ID", "candidate-1")
    ∷ ("FAULT_CONTROL_PLAN_SHA256", hex64)
    ∷ ("FAULT_CONTROL_HOSTED_INTEGRATION_TOKEN", concat ("sha256:" ∷ hex64 ∷ []))
    ∷ ("FAULT_CONTROL_CANDIDATE_DESCRIPTOR_SHA256", hex64)
    ∷ ("FAULT_CONTROL_ADAPTER_SOURCE_SHA256", hex64)
    ∷ ("FAULT_CONTROL_ADAPTER_IMAGE", concat ("zkdeal/fault@sha256:" ∷ hex64 ∷ []))
    ∷ ("FAULT_CONTROL_PLATFORM", "docker")
    ∷ []

abbrev setting : String → Option String
setting name = container_of name settings

abbrev built : Controller
built = record {
  topology = loaded;
  scoped_token = secret;
  binding_digest = hex64;
  receipt_binding = dict (
      ("candidateDescriptorSha256", str hex64)
      ∷ ("topologyReceiptSha256", str hex64)
      ∷ ("platform", str "docker")
      ∷ ("adapterImage", str (concat ("zkdeal/fault@sha256:" ∷ hex64 ∷ [])))
      ∷ ("adapterSourceSha256", str hex64)
      ∷ []);
}

built_test : build_controller disk (λ fields. hex64) setting ≡ ok built
unfolding build_controller container_of load_topology read_topology ◌>>=◌ check some_or exact_keys
    normalized_url read_docker read_secret
built_test = refl

build_controller-Isolated_example :
    Isolated built.topology
    × (disk.sha256 built.scoped_token ≡ built.topology.auth_token_sha256)
    × (is_value (setting "FAULT_CONTROL_CANDIDATE_ID") built.topology.candidate_id ≡ true)
build_controller-Isolated_example =
    build_controller-Isolated disk (λ fields. hex64) setting built built_test

-- The indexer of the fixture is stopped for a while.

build_controller-DockerConfined_example :
    (prefix : String) × (is_container_name prefix ≡ true)
    × ((env : Surroundings) (body : Fields) (key correlation_id : String) (w : World)
        → DockerConfined env prefix w.history
            (execute_fault env built body key correlation_id w).1.history)
build_controller-DockerConfined_example =
    build_controller-DockerConfined disk (λ fields. hex64) setting built built_test
