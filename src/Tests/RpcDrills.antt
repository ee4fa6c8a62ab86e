-- ===== src/Tests/RpcDrills.antt =====
-- fault-control/fault_control.py: a reorg and a disagreement on two providers that do as they are told.
use Prim.Native.String.{slice}
use zkdeal_cloud_deployer_in.Faults.Model.{
  Fault, Result, Surroundings, World, answered, document, object, replied,
}
use zkdeal_cloud_deployer_in.Base.{
  Option, String, [], arith, if◌then◌else◌, none, refl, some, true, ◌*◌, ◌+◌, ◌<◌, ◌∷◌, ◌≡◌, ◌≤◌,
}
use zkdeal_cloud_deployer_in.Base.Json.{Fields, Json, bool, dict, end, eq_str, get, num, obj, str}
use zkdeal_cloud_deployer_in.Base.Outcome.{Outcome, err, ok}
use zkdeal_cloud_deployer_in.Base.Decimal.{concat}
use zkdeal_cloud_deployer_in.Faults.Topology.{Topology}
use zkdeal_cloud_deployer_in.Faults.Docker.{stop_grace_seconds}
use zkdeal_cloud_deployer_in.Faults.Docker.Grace.{stop_grace_seconds_bounds}
use zkdeal_cloud_deployer_in.Faults.Rpc.{read_reply, rpc_result, send}
use zkdeal_cloud_deployer_in.Faults.Drills.{eq_number}
use zkdeal_cloud_deployer_in.Faults.Drills.Reorg.{mine_both, replace_reorg}
use zkdeal_cloud_deployer_in.Faults.Drills.Disagreement.{start_disagreement}
use zkdeal_cloud_deployer_in.Faults.Drills.Branches.{
  Answered, after_calls, branch_calls, mine_both-calls, unnumbered,
}
use zkdeal_cloud_deployer_in.Faults.Journal.{Results, closure_name}

stop_grace_seconds_bounds_example :
    (1 ≤ stop_grace_seconds 10)
    × (stop_grace_seconds 10 < 10)
    × (stop_grace_seconds 10 * 2 ≤ 10)
    × (6 ≤ 10 → stop_grace_seconds 10 + 5 ≤ 10)
stop_grace_seconds_bounds_example = stop_grace_seconds_bounds 10 (omega arith)

abbrev words : String
words = "0123456789abcdef0123456789abcdef"

-- A block with the hash of one more digit pair.
abbrev test_block : String → Json
test_block pair = obj (
    dict (
      ("hash", str (concat ("0x" ∷ slice words 0 30 ∷ words ∷ pair ∷ [])))
      ∷ ("timestamp", str "0x10")
      ∷ []))

abbrev rpc_answer : Fields → Json
rpc_answer body =
    if eq_str (get body "method") "evm_revert"
    then bool true
    else if eq_str (get body "method") "eth_getBlockByNumber"
    then (if eq_number (get body "id") 331 then test_block "ff" else test_block "00")
    else str "0x1"

abbrev body_of : Option Fields → Fields
body_of none = end
body_of (some body) = body

abbrev providers : Surroundings
providers = record {
  send = λ history request.
      replied 200 12 "bytes" (object (dict (("result", rpc_answer (body_of request.body)) ∷ [])));
  docker = λ history request. answered 204 0;
  can_write = λ history name. true;
  utc_now = λ history. "2026-01-01T00:00:00Z";
  sha256 = λ text. text;
  digest = λ fields. words;
  canonical_size = λ fields. 600;
  quote = λ text. text;
}

abbrev two_providers : Topology
two_providers = record {
  classification = "non-release-fixture";
  candidate_id = "candidate-1";
  plan_sha256 = "plan";
  hosted_token = "hosted";
  auth_token_sha256 = "token-hash";
  allowed_hosts = "rpc-a" ∷ "rpc-b" ∷ [];
  rpc_a = "http://rpc-a";
  rpc_b = "http://rpc-b";
  docker_socket = none;
  restart_targets = [];
  partition_network = none;
  partition_targets = [];
  load_profiles = [];
  request_timeout_seconds = 10;
  topology_sha256 = "topology";
}

abbrev prepared_id : String
prepared_id = concat ("fc-" ∷ words ∷ "01234567" ∷ [])

abbrev prepared_world : World
prepared_world = record {
  files =
      (
        closure_name prepared_id,
        document (
            dict (
              ("action", str "fault:l1-reorg")
              ∷ ("bindingDigest", str "binding")
              ∷ (
                "privateResult",
                obj (
                    dict (
                      ("snapshotA", str "0x1")
                      ∷ ("snapshotB", str "0x1")
                      ∷ ("previousBlockHash", str "0xold")
                      ∷ ("depth", num 2)
                      ∷ [])),
              )
              ∷ [])),
      )
      ∷ [];
  history = [];
}

abbrev results_of : Result Results → Results
results_of (ok results) = results
results_of (err fault) = (end, end)

abbrev replaced : Outcome Fault Results × World
replaced = replace_reorg providers "binding" two_providers "fc-abcdef" 2 prepared_id prepared_world

abbrev disagreeing : Outcome Fault Results × World
disagreeing =
    start_disagreement providers "binding" two_providers "fc-abcdef"
      (record { files = []; history = [] })

providers-Answered : Answered providers
unfolding read_reply rpc_result
providers-Answered history request = (rpc_answer (body_of request.body), refl)

abbrev quiet : World
quiet = record { files = []; history = [] }

mine_both-calls_example :
    (mine_both providers "binding" two_providers "fc-abcdef" 2 1000 17 20 60 quiet ≡ (
      ok tt,
      record quiet {
        history =
            after_calls "http://rpc-b"
              (branch_calls 2 1000 17 60)
              (after_calls "http://rpc-a" (branch_calls 2 1000 17 20) []);
      },
    ))
    × (unnumbered (branch_calls 2 1000 17 20) ≡ unnumbered (branch_calls 2 1000 17 60))
mine_both-calls_example =
    mine_both-calls providers providers-Answered "binding" two_providers "fc-abcdef" 2 1000 17 20 60
      quiet
