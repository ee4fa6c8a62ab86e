-- ===== src/Faults/Drills/Targets.antt =====
-- fault-control/fault_control.py: rules for what each drill of `Controller` asks.
use zkdeal_cloud_deployer_in.Faults.Drills.Disagreement.{restore_disagreement, start_disagreement}
use zkdeal_cloud_deployer_in.Faults.Drills.Reviewed.{
  Indifferent, IsEndpoint, IsProvider, IsTarget, on_network, on_target, to_docker, to_provider,
}
use zkdeal_cloud_deployer_in.Faults.Model.{Fault, Result, Surroundings, World}
use zkdeal_cloud_deployer_in.Base.Machine.Keeps.{
  Keeps, Keeps-bind, Keeps-bind_lift, Keeps-bind_or_raise, Keeps-lift, Keeps-pure, Keeps-require,
  Keeps-then, keeps_rules,
}
use zkdeal_cloud_deployer_in.Base.{
  Bool, List, Option, String, [], false, if◌then◌else◌, inl, inr, none, refl, some, subst, suc, sym,
  true, zero, ℕ, ◌+◌, ◌==◌, ◌∷◌, ◌≡◌,
}
use zkdeal_cloud_deployer_in.Base.Json.{Items, Json, names, nil}
use zkdeal_cloud_deployer_in.Faults.Journal.{read_record}
use zkdeal_cloud_deployer_in.Faults.Topology.{Topology, container_of}
use zkdeal_cloud_deployer_in.Faults.Rpc.{
  block, block_hash, http_json, mine, mine_blocks, pin_timestamp, rpc_json, send,
}
use zkdeal_cloud_deployer_in.Faults.Docker.{
  docker_container_action, docker_network_action, each_container, request_docker,
}
use zkdeal_cloud_deployer_in.Faults.Drills.{
  agreed_hash, container, containers_of, indexer_rollback, network_partition, or_missing,
  prior_closure, revert,
}
use zkdeal_cloud_deployer_in.Base.Lists.{All}
use zkdeal_cloud_deployer_in.Base.Outcome.{err, err-ne-ok, ok, ok_injective}
use zkdeal_cloud_deployer_in.Faults.Drills.Reorg.{mine_both, prepare_reorg, replace_reorg}

or_missing-parts :
    (o : Option String) (later : Result (List String)) (names : List String)
    → or_missing o later ≡ ok names
    → (name : String) × (others : List String) × (o ≡ some name)
      × (later ≡ ok others)
      × (names ≡ name ∷ others)
unfolding or_missing
or_missing-parts none later names h = absurd (err-ne-ok h)
or_missing-parts (some name) (ok others) names h = (name, others, refl, refl, sym (ok_injective h))
or_missing-parts (some name) (err fault) names h = absurd (err-ne-ok h)

module _ (env : Surroundings) (topology : Topology) {P : World → Type 0}
    (step : Indifferent env topology P) where
  rpc-Keeps :
      (base_url method : String) (params : Items) (request_id : ℕ)
      → IsProvider topology base_url
      → Keeps P (rpc_json env base_url method params request_id)
  unfolding rpc_json http_json send
  rpc-Keeps base_url method params request_id provider =
      Keeps-bind _ _
        (Keeps-bind _ _ (record { at = λ w p. step _ (to_provider base_url _ provider) w p })
          (λ reply. Keeps-lift _))
        (λ response. Keeps-lift _)

  block-Keeps :
      (base_url : String) (request_id : ℕ)
      → IsProvider topology base_url
      → Keeps P (block env base_url request_id)
  unfolding block
  block-Keeps base_url request_id provider = search (rpc-Keeps, keeps_rules) depth 10

  block_hash-Keeps :
      (base_url : String) (request_id : ℕ)
      → IsProvider topology base_url
      → Keeps P (block_hash env base_url request_id)
  unfolding block_hash
  block_hash-Keeps base_url request_id provider = search (block-Keeps, keeps_rules) depth 10

  pin-Keeps :
      (base_url : String) (start : Option ℕ) (offset request_id : ℕ)
      → IsProvider topology base_url
      → Keeps P (pin_timestamp env base_url start offset request_id)
  unfolding pin_timestamp
  pin-Keeps base_url none offset request_id provider = Keeps-pure tt
  pin-Keeps base_url (some start) offset request_id provider =
      search (rpc-Keeps, keeps_rules) depth 10

  mine_blocks-Keeps :
      (base_url : String) (start : Option ℕ) (request_id offset left : ℕ)
      → IsProvider topology base_url
      → Keeps P (mine_blocks env base_url start request_id offset left)
  unfolding mine_blocks
  mine_blocks-Keeps base_url start request_id offset zero provider = Keeps-pure tt
  mine_blocks-Keeps base_url start request_id offset (suc left) provider =
      Keeps-then _ _ (pin-Keeps base_url start offset request_id provider) (
        Keeps-then _ _ (rpc-Keeps base_url "evm_mine" nil _ provider)
          (mine_blocks-Keeps base_url start request_id (offset + 1) left provider))

  mine-Keeps :
      (base_url : String) (blocks base_fee request_id : ℕ) (start : Option ℕ)
      → IsProvider topology base_url
      → Keeps P (mine env base_url blocks base_fee request_id start)
  unfolding mine
  mine-Keeps base_url blocks base_fee request_id start provider =
      Keeps-then _ _ (rpc-Keeps base_url _ _ request_id provider)
        (mine_blocks-Keeps base_url start request_id 0 blocks provider)

  at_a : IsProvider topology topology.rpc_a
  at_a = inl refl

  at_b : IsProvider topology topology.rpc_b
  at_b = inr refl

  reads-Keeps : (name : String) → Keeps P (read_record name)
  unfolding read_record
  reads-Keeps name = record { at = λ w p. p }

  ruleset target_rules =
      (rpc-Keeps, block-Keeps, block_hash-Keeps, mine-Keeps, reads-Keeps, at_a, at_b, keeps_rules)

  module _ (binding_digest : String) where
    revert-Keeps :
        (base_url : String) (snapshot : Json) (request_id : ℕ)
        → IsProvider topology base_url
        → Keeps P (revert env binding_digest topology base_url snapshot request_id)
    unfolding revert
    revert-Keeps base_url snapshot request_id provider = search target_rules depth 10

    agreed-Keeps :
        (id_a id_b : ℕ) (fault : Fault)
        → Keeps P (agreed_hash env binding_digest topology id_a id_b fault)
    unfolding agreed_hash
    agreed-Keeps id_a id_b fault = search target_rules depth 20

    prior-Keeps :
        (operation_id expected_action : String)
        → Keeps P (prior_closure env binding_digest topology operation_id expected_action)
    unfolding prior_closure
    prior-Keeps operation_id expected_action = search target_rules depth 20

    ruleset drill_rules = (revert-Keeps, agreed-Keeps, prior-Keeps, target_rules)

    module _ (operation_id : String) where
      pub start_disagreement-Keeps :
          Keeps P (start_disagreement env binding_digest topology operation_id)
      unfolding start_disagreement
      start_disagreement-Keeps = search drill_rules depth 40

      pub restore_disagreement-Keeps :
          (prepared : String)
          → Keeps P (restore_disagreement env binding_digest topology operation_id prepared)
      unfolding restore_disagreement
      restore_disagreement-Keeps prepared = search drill_rules depth 40

      mine_both-Keeps :
          (depth base_fee timestamp id_a id_b : ℕ)
          → Keeps P (
              mine_both env binding_digest topology operation_id depth base_fee timestamp id_a id_b)
      unfolding mine_both
      mine_both-Keeps depth base_fee timestamp id_a id_b = search drill_rules depth 10

      pub prepare_reorg-Keeps :
          (depth : ℕ) → Keeps P (prepare_reorg env binding_digest topology operation_id depth)
      unfolding prepare_reorg
      prepare_reorg-Keeps depth = search (mine_both-Keeps, drill_rules) depth 40

      pub replace_reorg-Keeps :
          (depth : ℕ) (prepared : String)
          → Keeps P (replace_reorg env binding_digest topology operation_id depth prepared)
      unfolding replace_reorg
      replace_reorg-Keeps depth prepared = search (mine_both-Keeps, drill_rules) depth 40 fits 8000

      pub container-Keeps :
          (target verb action : String)
          → Keeps P (container env binding_digest topology operation_id target verb action)
      unfolding container docker_container_action request_docker
      container-Keeps target verb action = Keeps-then _ _ (Keeps-require _ _) (
          Keeps-bind_or_raise _ _ _ (λ name found.
            Keeps-then _ _
              (Keeps-bind_or_raise _ _ _ (λ spec known.
                Keeps-bind _ _
                  (record {
                    at = λ w p.
                        step _ (to_docker _ (on_target name verb spec (target, found) known)) w p;
                  })
                  (λ answer. Keeps-lift _)))
              (Keeps-pure _)))

      pub indexer_rollback-Keeps :
          (prepared : Json)
          → Keeps P (indexer_rollback env binding_digest topology operation_id prepared)
      unfolding indexer_rollback
      indexer_rollback-Keeps prepared = search (container-Keeps, drill_rules) depth 40

      containers_of-Targets :
          (aliases names : List String)
          → containers_of env binding_digest topology operation_id aliases ≡ ok names
          → All (IsTarget topology) names
      unfolding containers_of
      containers_of-Targets [] names h = subst (All (IsTarget topology)) (ok_injective h) tt
      containers_of-Targets (alias ∷ rest) names h =
          let (name, others, found, listed, same) =
            or_missing-parts (container_of alias topology.restart_targets)
              (containers_of env binding_digest topology operation_id rest) names h in
          subst (All (IsTarget topology)) (sym same)
            ((alias, found), containers_of-Targets rest others listed)

      each_container-Keeps :
          (network endpoint : String) (names : List String)
          → topology.partition_network ≡ some network
          → IsEndpoint endpoint
          → All (IsTarget topology) names
          → Keeps P (each_container env network endpoint names)
      unfolding each_container request_docker
      each_container-Keeps network endpoint [] known one targets = Keeps-pure tt
      each_container-Keeps network endpoint (name ∷ names) known one (target, targets) =
          Keeps-bind _ _
            (record {
              at = λ w p.
                  step _ (to_docker _ (on_network network endpoint name known one target)) w p;
            })
            (λ answer.
              Keeps-then _ _ (Keeps-lift _)
                (each_container-Keeps network endpoint names known one targets))

      either-IsEndpoint : (starts : Bool) → IsEndpoint (if starts then "disconnect" else "connect")
      either-IsEndpoint true = inl refl
      either-IsEndpoint false = inr refl

      pub network_partition-Keeps :
          (phase : String)
          → Keeps P (network_partition env binding_digest topology operation_id phase)
      unfolding network_partition docker_network_action
      network_partition-Keeps phase = Keeps-then _ _ (Keeps-require _ _) (
          Keeps-bind_lift _ _ (λ names found. Keeps-bind_or_raise _ _ _ (λ network known.
            Keeps-then _ _
              (Keeps-then _ _ (Keeps-require _ _) (
                each_container-Keeps network _ names known (either-IsEndpoint (phase == "start"))
                  (containers_of-Targets topology.partition_targets names found)))
              (Keeps-pure _))))
