-- ===== src/Faults/Startup/Isolated.antt =====
-- fault-control/fault_control.py, `load_topology`: what a topology that it returns is known to be.
use zkdeal_cloud_deployer_in.Base.Outcome.{
  Yields, Yields-bind, Yields-ok, bind_first, check_passed, err-ne-ok, ok, ok_injective,
}
use zkdeal_cloud_deployer_in.Base.{
  Bool, Bool-cases, List, Option, String, arith, false, inl, inr, none, not, some, subst, sym, true,
  ◌==◌, ◌∙◌, ◌≡◌, ◌≤◌,
}
use zkdeal_cloud_deployer_in.Base.Json.{
  Fields, Json, arr, bool, end, field, float, get, int, null, obj, str,
}
use zkdeal_cloud_deployer_in.Faults.Topology.{Topology, container_of}
use zkdeal_cloud_deployer_in.Faults.Startup.Targets.{
  is_within, read_docker, read_network, read_targets, within_prefix,
}
use zkdeal_cloud_deployer_in.Faults.Model.{configuration_error}
use zkdeal_cloud_deployer_in.Faults.Documents.{
  bounded_int, is_candidate, is_container_name, strict_int,
}
use zkdeal_cloud_deployer_in.Faults.Requests.Reading.{in_bounds-bounds}
use zkdeal_cloud_deployer_in.Faults.Startup.Loading.{load_topology, read_topology, tested_text}
use zkdeal_cloud_deployer_in.Faults.Startup.{Disk}

within_prefix-is_within :
    (prefix : String) (value : Json) (name : String)
    → within_prefix prefix value ≡ ok name
    → is_within prefix name ≡ true
unfolding within_prefix
within_prefix-is_within prefix (str text) name h = elim (Bool-cases (is_within prefix text)) [
  | inl is ↦ subst (λ n. is_within prefix n ≡ true) (ok_injective (rw (is) at h)) is
  | inr other ↦ absurd (err-ne-ok (rw (other) at h))
]
within_prefix-is_within prefix null name h = absurd (err-ne-ok h)
within_prefix-is_within prefix (bool b) name h = absurd (err-ne-ok h)
within_prefix-is_within prefix (int z) name h = absurd (err-ne-ok h)
within_prefix-is_within prefix (float t) name h = absurd (err-ne-ok h)
within_prefix-is_within prefix (arr items) name h = absurd (err-ne-ok h)
within_prefix-is_within prefix (obj fields) name h = absurd (err-ne-ok h)

no-container : {c : String} → none ≡ some c → ⊥
no-container h = cc

same_container : {a b : String} → some a ≡ some b → a ≡ b
same_container h = cc

read_targets-is_within :
    (prefix : String) (value : Fields) (targets : List (String × String))
    → read_targets prefix value ≡ ok targets
    → (alias container : String) → container_of alias targets ≡ some container
    → is_within prefix container ≡ true
unfolding read_targets container_of
read_targets-is_within prefix end targets h alias container found = absurd (
    no-container
      (subst (λ ts. container_of alias ts ≡ some container) (sym (ok_injective h)) found))
read_targets-is_within prefix (field name value rest) targets h alias container found =
    let (first, is_first, h1) = bind_first (within_prefix prefix value) _ targets h in
    let (others, are_others, h2) = bind_first (read_targets prefix rest) _ targets h1 in
    let found_here =
      subst (λ ts. container_of alias ts ≡ some container) (sym (ok_injective h2)) found in
    elim (Bool-cases (name == alias)) [
      | inl same ↦
          subst (λ c. is_within prefix c ≡ true) (same_container (rw (same) at found_here))
            (within_prefix-is_within prefix value first is_first)
      | inr other ↦
          read_targets-is_within prefix rest others are_others alias container
            (rw (other) at found_here)
    ]

read_network-is_within :
    (prefix : String) (value : Json) (network : Option String) (name : String)
    → read_network prefix value ≡ ok network
    → network ≡ some name
    → is_within prefix name ≡ true
unfolding read_network
read_network-is_within prefix null network name h known =
    absurd (no-container (ok_injective h ∙ known))
read_network-is_within prefix (str text) network name h known =
    let (it, is_it, h1) = bind_first (within_prefix prefix (str text)) _ network h in
    subst (λ n. is_within prefix n ≡ true) (same_container (ok_injective h1 ∙ known))
      (within_prefix-is_within prefix (str text) it is_it)
read_network-is_within prefix (bool b) network name h known =
    let (it, is_it, h1) = bind_first (within_prefix prefix (bool b)) _ network h in
    absurd (err-ne-ok is_it)
read_network-is_within prefix (int z) network name h known =
    let (it, is_it, h1) = bind_first (within_prefix prefix (int z)) _ network h in
    absurd (err-ne-ok is_it)
read_network-is_within prefix (float t) network name h known =
    let (it, is_it, h1) = bind_first (within_prefix prefix (float t)) _ network h in
    absurd (err-ne-ok is_it)
read_network-is_within prefix (arr items) network name h known =
    let (it, is_it, h1) = bind_first (within_prefix prefix (arr items)) _ network h in
    absurd (err-ne-ok is_it)
read_network-is_within prefix (obj fields) network name h known =
    let (it, is_it, h1) = bind_first (within_prefix prefix (obj fields)) _ network h in
    absurd (err-ne-ok is_it)

-- The containers and the network carry one prefix, which is a container's name itself.
pub record Prefixed (targets : List (String × String)) (network : Option String) : Type 0 where
  pub prefix : String
  pub prefix_named : is_container_name prefix ≡ true
  pub target_within :
      (alias container : String)
      → container_of alias targets ≡ some container
      → is_within prefix container ≡ true
  pub network_within : (name : String) → network ≡ some name → is_within prefix name ≡ true

read_docker-Yields :
    (value : Json) → Yields (λ reach. Prefixed reach.targets reach.network) (read_docker value)
unfolding read_docker
read_docker-Yields value = Yields-bind _ _ (λ docker e1. Yields-bind _ _ (λ u2 e2.
    Yields-bind _ _ (λ socket e3. Yields-bind _ _ (λ prefix e4. Yields-bind _ _ (λ u5 e5.
      Yields-bind _ _ (λ restart e6. Yields-bind _ _ (λ u7 e7. Yields-bind _ _ (λ targets e8.
        Yields-bind _ _ (λ network e9. Yields-bind _ _ (λ aliases e10. Yields-bind _ _ (λ u11 e11.
          Yields-ok _ (record {
            prefix = prefix;
            prefix_named = check_passed _ configuration_error u5 e5;
            target_within = read_targets-is_within prefix restart targets e8;
            network_within = λ name known.
                read_network-is_within prefix (get docker "partitionNetwork") network name e9 known;
          }))))))))))))

-- What the loading of a topology makes sure of.
pub record Isolated (topology : Topology) : Type 0 where
  pub reach : Prefixed topology.restart_targets topology.partition_network
  pub two_providers : (topology.rpc_a == topology.rpc_b) ≡ false
  pub timeout_bounds :
      (1 ≤ topology.request_timeout_seconds) × (topology.request_timeout_seconds ≤ 30)
  pub candidate : is_candidate topology.candidate_id ≡ true

tested_text-passes :
    (test : String → Bool) (value : Json) (text : String)
    → tested_text test value ≡ ok text
    → test text ≡ true
unfolding tested_text
tested_text-passes test value text h =
    let (found, e1, h1) = bind_first _ _ text h in
    let (u, e2, h2) = bind_first _ _ text h1 in
    subst (λ t. test t ≡ true) (ok_injective h2)
      (check_passed (test found) configuration_error u e2)

not-true : (b : Bool) → not b ≡ true → b ≡ false
not-true b e = ground arith

module _ (disk : Disk) where
  read_topology-Isolated :
      (observed : String) (value : Fields) → Yields Isolated (read_topology disk observed value)
  unfolding read_topology bounded_int
  read_topology-Isolated observed value = Yields-bind _ _ (λ u1 e1. Yields-bind _ _ (λ u2 e2.
      Yields-bind _ _ (λ classification e3. Yields-bind _ _ (λ candidate_id e4.
        Yields-bind _ _ (λ plan_sha256 e5. Yields-bind _ _ (λ hosted_token e6.
          Yields-bind _ _ (λ auth_hash e7. Yields-bind _ _ (λ hosts e8.
            Yields-bind _ _ (λ providers e9. Yields-bind _ _ (λ u10 e10.
              Yields-bind _ _ (λ rpc_a e11. Yields-bind _ _ (λ rpc_b e12.
                Yields-bind _ _ (λ u13 e13. Yields-bind _ _ (λ reach e14.
                  Yields-bind _ _ (λ raw_profiles e15. Yields-bind _ _ (λ u16 e16.
                    Yields-bind _ _ (λ profiles e17. Yields-bind _ _ (λ timeout e18.
                      Yields-bind _ _ (λ u19 e19. Yields-ok _ (record {
                        reach = (read_docker-Yields (get value "docker")).at reach e14;
                        two_providers = not-true _ (check_passed _ configuration_error u13 e13);
                        timeout_bounds =
                            in_bounds-bounds (strict_int (get value "requestTimeoutSeconds")) 1 30
                              timeout e18;
                        candidate =
                            tested_text-passes is_candidate (get value "candidateId") candidate_id
                              e4;
                      }))))))))))))))))))))

  -- A topology that is loaded has two different providers, a timeout from 1 to 30 seconds and a well-formed
  -- candidate id, and there is one prefix, which is a container's name, that every container it names and
  -- the partition's network begin with.
  pub load_topology-Isolated :
      (path expected_sha256 : String) (topology : Topology)
      → load_topology disk path expected_sha256 ≡ ok topology
      → Isolated topology
  unfolding load_topology
  load_topology-Isolated path expected_sha256 topology h =
      let loading : Yields Isolated (load_topology disk path expected_sha256) =
        Yields-bind _ _ (λ file e1.
          Yields-bind _ _
            (λ u2 e2. Yields-bind _ _ (λ value e3. read_topology-Isolated file.digest value))) in
      loading.at topology h
