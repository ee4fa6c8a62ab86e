-- ===== src/Faults/Startup/Building.antt =====
-- fault-control/fault_control.py, `build_controller`: the controller of an environment.
use zkdeal_cloud_deployer_in.Base.Outcome.{
  Yields, Yields-bind, Yields-ok, check_passed, ok, ◌>>=◌, ◌>>◌,
}
use zkdeal_cloud_deployer_in.Faults.Model.{Result, configuration_error}
use zkdeal_cloud_deployer_in.Base.{
  Bool, List, Option, String, [], both_true, eq_iff, false, if◌then◌else◌, nat_eq, none, some, true,
  ℕ, ◌&&◌, ◌==◌, ◌||◌, ◌∷◌, ◌≡◌,
}
use zkdeal_cloud_deployer_in.Base.Lists.{all_of, any_of, length}
use zkdeal_cloud_deployer_in.Base.Text.{codes, is_hex64, is_lower_digit, is_lower_hex}
use zkdeal_cloud_deployer_in.Base.Json.{Fields, dict, end, field, str}
use zkdeal_cloud_deployer_in.Faults.Documents.{after_prefix}
use zkdeal_cloud_deployer_in.Faults.Topology.{Topology, binding}
use zkdeal_cloud_deployer_in.Faults.Controller.{Controller, updated}
use zkdeal_cloud_deployer_in.Faults.Startup.Loading.{load_topology}
use zkdeal_cloud_deployer_in.Faults.Startup.Isolated.{Isolated, load_topology-Isolated}
use zkdeal_cloud_deployer_in.Faults.Startup.{Disk, demand, read_secret}

-- The rest of a repository's name up to `@`, which no repository has, and the digest behind it.
unfoldable pub ends_in_digest : List ℕ → Bool
unfolding after_prefix is_lower_hex is_lower_digit
ends_in_digest [] = false
ends_in_digest (c ∷ cs) =
    if nat_eq c b'@'
    then is_digest_after (after_prefix (codes "sha256:") cs)
    else (is_lower_digit c || any_of (nat_eq c) (codes "._/-")) && ends_in_digest cs
  where
    is_digest_after : Option (List ℕ) → Bool
    is_digest_after none = false
    is_digest_after (some digits) = all_of is_lower_hex digits && nat_eq (length digits) 64

-- `OCI_DIGEST`, `^[a-z0-9][a-z0-9._/-]*@sha256:[0-9a-f]{64}$`
unfoldable pub is_oci_digest : List ℕ → Bool
unfolding ends_in_digest is_lower_digit
is_oci_digest [] = false
is_oci_digest (c ∷ cs) = is_lower_digit c && ends_in_digest cs

-- `env.get(name, "")` and `env.get(name) == expected`
abbrev pub or_empty : Option String → String
or_empty none = ""
or_empty (some value) = value

abbrev pub is_value : Option String → String → Bool
is_value none expected = false
is_value (some value) expected = value == expected

abbrev pub texts_as_fields : List (String × String) → Fields
texts_as_fields [] = end
texts_as_fields ((name, value) ∷ rest) = field name (str value) (texts_as_fields rest)

module _ (disk : Disk) (digest : Fields → String) (variable : String → Option String) where
  abbrev receipt_of : Topology → Fields
  receipt_of topology = dict (
      (
        "candidateDescriptorSha256",
        str (or_empty (variable "FAULT_CONTROL_CANDIDATE_DESCRIPTOR_SHA256")),
      )
      ∷ ("topologyReceiptSha256", str topology.topology_sha256)
      ∷ ("platform", str (or_empty (variable "FAULT_CONTROL_PLATFORM")))
      ∷ ("adapterImage", str (or_empty (variable "FAULT_CONTROL_ADAPTER_IMAGE")))
      ∷ ("adapterSourceSha256", str (or_empty (variable "FAULT_CONTROL_ADAPTER_SOURCE_SHA256")))
      ∷ [])

  -- `build_controller`, without the directory of the journal
  unfoldable pub build_controller : Result Controller
  unfolding is_hex64 is_oci_digest
  build_controller = do
    topology ←
        load_topology disk (or_empty (variable "FAULT_CONTROL_TOPOLOGY_FILE"))
          (or_empty (variable "FAULT_CONTROL_TOPOLOGY_SHA256"))
    demand (
        is_value (variable "FAULT_CONTROL_CANDIDATE_ID") topology.candidate_id
        && is_value (variable "FAULT_CONTROL_PLAN_SHA256") topology.plan_sha256
        && is_value (variable "FAULT_CONTROL_HOSTED_INTEGRATION_TOKEN") topology.hosted_token)
    token ←
        read_secret disk (or_empty (variable "FAULT_CONTROL_TOKEN_FILE")) topology.auth_token_sha256
    demand (is_hex64 (or_empty (variable "FAULT_CONTROL_CANDIDATE_DESCRIPTOR_SHA256")))
    demand (is_hex64 (or_empty (variable "FAULT_CONTROL_ADAPTER_SOURCE_SHA256")))
    demand (is_oci_digest (codes (or_empty (variable "FAULT_CONTROL_ADAPTER_IMAGE"))))
    demand (or_empty (variable "FAULT_CONTROL_PLATFORM") == "docker")
    ok (record {
      topology = topology;
      scoped_token = token;
      binding_digest = digest (updated (texts_as_fields (binding topology)) (receipt_of topology));
      receipt_binding = receipt_of topology;
    })

  secret_known :
      (path expected : String)
      → Yields (λ token. disk.sha256 token ≡ expected) (read_secret disk path expected)
  unfolding read_secret
  secret_known path expected = Yields-bind _ _ (λ file e1. Yields-bind _ _ (λ u2 e2.
      Yields-bind _ _ (λ u3 e3. Yields-bind _ _ (λ text e4. Yields-bind _ _ (λ u5 e5.
        Yields-bind _ _ (λ u6 e6. Yields-bind _ _ (λ u7 e7. Yields-ok _ (
          (eq_iff _ expected).0 (both_true _ _ (check_passed _ configuration_error u7 e7)).1))))))))

  -- A controller that is built is for an isolated topology, its bearer token has the digest that the
  -- topology names, and the environment names the topology's candidate.
  pub build_controller-Isolated :
      (controller : Controller)
      → build_controller ≡ ok controller
      → Isolated controller.topology
        × (disk.sha256 controller.scoped_token ≡ controller.topology.auth_token_sha256)
        × (is_value (variable "FAULT_CONTROL_CANDIDATE_ID") controller.topology.candidate_id ≡ true)
  unfolding build_controller
  build_controller-Isolated controller h =
      let built : Yields
          (λ c.
            Isolated c.topology
            × (disk.sha256 c.scoped_token ≡ c.topology.auth_token_sha256)
            × (is_value (variable "FAULT_CONTROL_CANDIDATE_ID") c.topology.candidate_id ≡ true))
          build_controller =
        Yields-bind _ _ (λ topology e1. Yields-bind _ _ (λ u2 e2. Yields-bind _ _ (λ token e3.
          Yields-bind _ _ (λ u4 e4. Yields-bind _ _ (λ u5 e5. Yields-bind _ _ (λ u6 e6.
            Yields-bind _ _ (λ u7 e7. Yields-ok _ (
              load_topology-Isolated disk _ _ topology e1,
              (secret_known _ topology.auth_token_sha256).at token e3,
              (both_true _ _ (both_true _ _ (check_passed _ configuration_error u2 e2)).0).0,
            )))))))) in
      built.at controller h
