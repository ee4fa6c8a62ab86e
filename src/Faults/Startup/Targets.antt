-- ===== src/Faults/Startup/Targets.antt =====
-- fault-control/fault_control.py, `load_topology`: the containers and the network of one candidate.
use zkdeal_cloud_deployer_in.Base.Outcome.{check, err, ok, ◌>>=◌, ◌>>◌}
use zkdeal_cloud_deployer_in.Faults.Model.{Result, configuration_error, unexpected}
use zkdeal_cloud_deployer_in.Base.{
  Bool, List, Option, String, [], false, if◌then◌else◌, leb, ltb, nat_eq, none, some, true, ℕ, ◌&&◌,
  ◌+◌, ◌==◌, ◌∷◌,
}
use zkdeal_cloud_deployer_in.Base.Lists.{all_of, any_of, distinct, length, subset}
use zkdeal_cloud_deployer_in.Base.Text.{begins, codes}
use zkdeal_cloud_deployer_in.Base.Json.{
  Fields, Items, Json, arr, end, field, get, item, names, nil, null, obj, str,
}
use zkdeal_cloud_deployer_in.Faults.Documents.{
  as_fields, as_text, exact_keys, is_container_name, text_in,
}
use zkdeal_cloud_deployer_in.Faults.Requests.{allowed_restart_targets}
use zkdeal_cloud_deployer_in.Faults.Startup.{demand}

-- `CONTAINER.fullmatch(name) and name.startswith(prefix)`
abbrev pub is_within : String → String → Bool
is_within prefix name = is_container_name name && begins (codes prefix) (codes name)

unfoldable pub within_prefix : String → Json → Result String
unfolding is_container_name
within_prefix prefix (str name) = if is_within prefix name then ok name else err configuration_error
within_prefix prefix other = err configuration_error

-- The loop over `restart.items()`
unfoldable pub read_targets : String → Fields → Result (List (String × String))
unfolding within_prefix
read_targets prefix end = ok []
read_targets prefix (field alias container rest) = do
  name ← within_prefix prefix container
  others ← read_targets prefix rest
  ok ((alias, name) ∷ others)

unfoldable pub read_network : String → Json → Result (Option String)
unfolding within_prefix
read_network prefix null = ok none
read_network prefix value = do name ← within_prefix prefix value; ok (some name)

-- `docker_socket not in {None, "/var/run/docker.sock"}`
unfoldable pub read_socket : Json → Result (Option String)
unfolding text_in
read_socket null = ok none
read_socket value = do
  socket ← text_in configuration_error value ("/var/run/docker.sock" ∷ [])
  ok (some socket)

-- How many members a list has, whether all are hashable, and their texts, if all are texts.
abbrev pub count : Items → ℕ
count nil = 0
count (item value rest) = 1 + count rest

abbrev hashable : Json → Bool
hashable (arr items) = false
hashable (obj fields) = false
hashable other = true

abbrev pub all_hashable : Items → Bool
all_hashable nil = true
all_hashable (item value rest) = hashable value && all_hashable rest

unfoldable pub all_texts : Items → Result (List String)
unfolding as_text
all_texts nil = ok []
all_texts (item value rest) = do
  text ← as_text value configuration_error
  others ← all_texts rest
  ok (text ∷ others)

abbrev names_target : List (String × String) → String → Bool
names_target targets alias = any_of (λ t. t.0 == alias) targets

-- `partitionTargets`: at most eight different names of `restartTargets`
unfoldable pub read_aliases : List (String × String) → Json → Result (List String)
unfolding all_texts
read_aliases targets (arr items) = do
  demand (leb (count items) 8)
  check (all_hashable items) unexpected
  aliases ← all_texts items
  demand (distinct aliases && all_of (names_target targets) aliases)
  ok aliases
read_aliases targets other = err configuration_error

pub record Reach : Type 0 where
  pub socket : Option String
  pub prefix : String
  pub targets : List (String × String)
  pub network : Option String
  pub aliases : List String

abbrev is_some : Option String → Bool
is_some none = false
is_some (some text) = true

-- `docker` of the topology file
unfoldable pub read_docker : Json → Result Reach
unfolding as_fields as_text read_socket read_targets read_network read_aliases is_container_name
read_docker value = do
  docker ← as_fields value configuration_error
  exact_keys docker (
      "socket" ∷ "containerPrefix" ∷ "restartTargets" ∷ "partitionNetwork" ∷ "partitionTargets"
      ∷ [])
  socket ← read_socket (get docker "socket")
  prefix ← as_text (get docker "containerPrefix") configuration_error
  demand (is_container_name prefix)
  restart ← as_fields (get docker "restartTargets") configuration_error
  demand (subset (names restart) allowed_restart_targets)
  targets ← read_targets prefix restart
  network ← read_network prefix (get docker "partitionNetwork")
  aliases ← read_aliases targets (get docker "partitionTargets")
  demand (if is_some network then ltb 0 (length aliases) else nat_eq (length aliases) 0)
  ok (record {
    socket = socket;
    prefix = prefix;
    targets = targets;
    network = network;
    aliases = aliases;
  })
