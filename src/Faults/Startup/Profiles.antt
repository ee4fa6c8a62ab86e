-- ===== src/Faults/Startup/Profiles.antt =====
-- fault-control/fault_control.py, `load_topology`: the fixed endpoints of the load profiles.
use zkdeal_cloud_deployer_in.Base.Outcome.{err, ok, ◌>>=◌, ◌>>◌}
use zkdeal_cloud_deployer_in.Faults.Model.{Result, configuration_error}
use zkdeal_cloud_deployer_in.Base.{
  Bool, List, Option, String, [], false, if◌then◌else◌, leb, none, not, some, true, ◌&&◌, ◌*◌, ◌==◌,
  ◌∷◌,
}
use zkdeal_cloud_deployer_in.Base.Json.{
  Fields, Items, Json, arr, end, field, get, item, nil, null, obj, truthy,
}
use zkdeal_cloud_deployer_in.Faults.Documents.{as_fields, as_text, exact_keys, text_in}
use zkdeal_cloud_deployer_in.Faults.Topology.{LoadEndpoint}
use zkdeal_cloud_deployer_in.Faults.Startup.Targets.{count}
use zkdeal_cloud_deployer_in.Faults.Startup.{Disk, demand, normalized_url, read_secret, safe_path}

-- `ALLOWED_LOAD_PROFILES`
abbrev pub allowed_load_profiles : List String
allowed_load_profiles = "rpc" ∷ "sse" ∷ "indexer" ∷ "admission" ∷ "scheduler" ∷ "projection" ∷ []

module _ (disk : Disk) (allowed_hosts : List String) where
  -- The body of an endpoint: none, or an object that a GET does not have.
  unfoldable pub read_body : String → Json → Result (Option Fields)
  read_body method null = ok none
  read_body method (obj body) = do
    demand (not (method == "GET") && leb (disk.canonical_size body) (64 * 1024))
    ok (some body)
  read_body method other = err configuration_error

  -- The token file and its hash, both or neither.
  unfoldable pub read_token : Json → Json → Result (Option String)
  unfolding as_text
  read_token file hash = do
    demand (if truthy file then truthy hash else not (truthy hash))
    given_token (truthy file) file hash
    where
      given_token : Bool → Json → Json → Result (Option String)
      given_token false file hash = ok none
      given_token true file hash = do
        path ← as_text file configuration_error
        digest ← as_text hash configuration_error
        token ← read_secret disk path digest
        ok (some token)

  unfoldable pub read_endpoint : Json → Result LoadEndpoint
  unfolding as_fields text_in read_body read_token
  read_endpoint value = do
    endpoint ← as_fields value configuration_error
    exact_keys endpoint ("baseUrl" ∷ "path" ∷ "method" ∷ "body" ∷ "tokenFile" ∷ "tokenSha256" ∷ [])
    method ← text_in configuration_error (get endpoint "method") ("GET" ∷ "POST" ∷ [])
    body ← read_body method (get endpoint "body")
    token ← read_token (get endpoint "tokenFile") (get endpoint "tokenSha256")
    base_url ← normalized_url disk (get endpoint "baseUrl") allowed_hosts
    path ← safe_path disk (get endpoint "path")
    ok (record { base_url = base_url; path = path; method = method; body = body; token = token })

  unfoldable pub read_endpoints : Items → Result (List LoadEndpoint)
  unfolding read_endpoint
  read_endpoints nil = ok []
  read_endpoints (item value rest) = do
    endpoint ← read_endpoint value
    others ← read_endpoints rest
    ok (endpoint ∷ others)

  unfoldable pub read_profile : Json → Result (List LoadEndpoint)
  unfolding as_fields read_endpoints
  read_profile value = do
    profile ← as_fields value configuration_error
    exact_keys profile ("endpoints" ∷ [])
    bounded_endpoints (get profile "endpoints")
    where
      bounded_endpoints : Json → Result (List LoadEndpoint)
      bounded_endpoints (arr items) = do
        demand (leb 1 (count items) && leb (count items) 2)
        read_endpoints items
      bounded_endpoints other = err configuration_error

  -- The loop over `raw_profiles.items()`
  unfoldable pub read_profiles : Fields → Result (List (String × List LoadEndpoint))
  unfolding read_profile
  read_profiles end = ok []
  read_profiles (field name value rest) = do
    endpoints ← read_profile value
    others ← read_profiles rest
    ok ((name, endpoints) ∷ others)
