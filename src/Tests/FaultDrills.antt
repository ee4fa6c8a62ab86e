-- ===== src/Tests/FaultDrills.antt =====
-- fault-control/fault_control.py: a service is paused, and the request is sent again.
use zkdeal_cloud_deployer_in.Faults.Journal.Progress.{Succeeds, execute-Succeeds}
use zkdeal_cloud_deployer_in.Faults.Model.{
  Action, Fault, Result, Surroundings, World, answered, control_error, document, find, object,
  replied,
}
use zkdeal_cloud_deployer_in.Base.Machine.{◌>>=◌}
use zkdeal_cloud_deployer_in.Base.{
  Bool, String, [], arith, false, if◌then◌else◌, none, refl, some, true, ◌==◌, ◌∷◌, ◌≡◌, ◌≢◌, ◌⊎◌,
}
use zkdeal_cloud_deployer_in.Base.Json.{
  Fields, bool, dict, end, eq_str, get, num, obj, pos, put, str,
}
use zkdeal_cloud_deployer_in.Base.Outcome.{Outcome, check, err, ok}
use zkdeal_cloud_deployer_in.Base.Decimal.{concat}
use zkdeal_cloud_deployer_in.Faults.Topology.{Topology, container_of}
use zkdeal_cloud_deployer_in.Faults.Docker.{docker_container_action, request_docker}
use zkdeal_cloud_deployer_in.Faults.Requests.{Drill, fault_drill, on_container}
use zkdeal_cloud_deployer_in.Faults.Drills.{container}
use zkdeal_cloud_deployer_in.Faults.Http.{Post, do_post}
use zkdeal_cloud_deployer_in.Faults.Http.Unauthorized.{do_post_unauthorized}
use zkdeal_cloud_deployer_in.Faults.Journal.{
  Callback, by_intent, closure, closure_name, durable_create, execute, finish, intent_name,
  operation_id_of, perform, request_digest, stored, utc_now,
}
use zkdeal_cloud_deployer_in.Faults.Journal.WriteOnce.{
  Extends, Extends-refl, Readable, WritesOnce, all_readable, all_readable-Readable,
}
use zkdeal_cloud_deployer_in.Faults.Journal.AtMostOnce.{Idle}
use zkdeal_cloud_deployer_in.Faults.Controller.{
  Controller, execute_fault, run_drill, validate_binding,
}
use zkdeal_cloud_deployer_in.Faults.Controller.Containment.{Since, execute_fault-Since}
use zkdeal_cloud_deployer_in.Faults.Controller.Once.{
  execute_fault_once, execute_fault_replays, run_drill-WritesOnce,
}
use zkdeal_cloud_deployer_in.Faults.Documents.{exact_keys, is_mark_word, is_operation_id}
use zkdeal_cloud_deployer_in.Faults.Journal.Replay.{closure-execute, execute_conflict}
use zkdeal_cloud_deployer_in.Faults.Journal.Duplicates.{execute_duplicate}
use zkdeal_cloud_deployer_in.Faults.Requests.Reviewed.{ReviewedFor, fault_drill-ReviewedFor}

abbrev pub hex40 : String
hex40 = "0123456789abcdef0123456789abcdef01234567"

-- A digest that tells two correlation ids apart.
abbrev pub test_digest : Fields → String
test_digest fields =
    if eq_str (get fields "correlationId") "correlation-2"
    then concat ("f" ∷ hex40 ∷ [])
    else concat (hex40 ∷ "ff" ∷ [])

abbrev pub bench : Surroundings
bench = record {
  send = λ history request. replied 200 12 "bytes" (object (dict (("result", bool true) ∷ [])));
  docker = λ history request. answered 204 0;
  can_write = λ history name. true;
  utc_now = λ history. "2026-01-01T00:00:00Z";
  sha256 = λ text. text;
  digest = test_digest;
  canonical_size = λ fields. 600;
  quote = λ text. text;
}

abbrev test_topology : Topology
test_topology = record {
  classification = "non-release-fixture";
  candidate_id = "candidate-1";
  plan_sha256 = "plan";
  hosted_token = "hosted";
  auth_token_sha256 = "token-hash";
  allowed_hosts = "rpc-a" ∷ "rpc-b" ∷ [];
  rpc_a = "http://rpc-a";
  rpc_b = "http://rpc-b";
  docker_socket = some "/var/run/docker.sock";
  restart_targets = ("indexer", "zk-indexer") ∷ [];
  partition_network = none;
  partition_targets = [];
  load_profiles = [];
  request_timeout_seconds = 10;
  topology_sha256 = "topology";
}

abbrev test_controller : Controller
test_controller = record {
  topology = test_topology;
  scoped_token = "eph_token";
  binding_digest = "binding";
  receipt_binding = dict (("platform", str "docker") ∷ []);
}

abbrev pause_body : Fields
pause_body = dict (
    ("schemaVersion", num 1)
    ∷ (
      "binding",
      obj (
          dict (
            ("candidateId", str "candidate-1")
            ∷ ("planSha256", str "plan")
            ∷ ("hostedIntegrationToken", str "hosted")
            ∷ [])),
    )
    ∷ ("action", str "service-pause")
    ∷ ("parameters", obj (dict (("target", str "indexer") ∷ ("phase", str "pause") ∷ [])))
    ∷ [])

abbrev pub fresh : World
fresh = record { files = []; history = [] }

abbrev pause_drill : Drill
pause_drill = on_container "indexer" "pause" "service-pause"

abbrev pause : Callback
pause = run_drill bench test_controller pause_drill

abbrev answer_of : Result (Fields × Bool) → Fields
answer_of (ok answer) = answer.0
answer_of (err fault) = end

abbrev paused : Outcome Fault (Fields × Bool) × World
paused = execute_fault bench test_controller pause_body "pause-key-1" "correlation-1" fresh

abbrev journal_paused : Outcome Fault (Fields × Bool) × World
journal_paused =
    execute bench "binding" "fault:service-pause" pause_body "pause-key-1" "correlation-1" pause
      fresh

execute_fault_once_example :
    Idle fresh paused.1
    ⊎ ((body_again : Fields) (correlation_id_again : String) (later : World)
        → Extends paused.1.files later.files
        → (execute_fault bench test_controller body_again "pause-key-1" correlation_id_again
            later).1
          ≡ later)
execute_fault_once_example =
    execute_fault_once bench test_controller pause_body "pause-key-1" "correlation-1" fresh

execute_fault-Since_example : Since bench test_topology [] paused.1.history
execute_fault-Since_example =
    execute_fault-Since bench test_controller pause_body "pause-key-1" "correlation-1" fresh

paused_test : paused.0 ≡ ok (answer_of paused.0, false)
unfolding zkdeal_cloud_deployer_in.Base.Outcome.◌>>=◌ exact_keys check execute_fault
    validate_binding execute by_intent perform finish durable_create run_drill container
    docker_container_action request_docker ◌>>=◌ find utc_now request_digest
paused_test = refl

paused_Readable : Readable paused.1.files
unfolding zkdeal_cloud_deployer_in.Base.Outcome.◌>>=◌ exact_keys check execute_fault
    validate_binding execute by_intent perform finish durable_create run_drill container
    docker_container_action request_docker ◌>>=◌ find utc_now request_digest stored all_readable
paused_Readable = all_readable-Readable paused.1.files refl

execute_fault_replays_example :
    execute_fault bench test_controller pause_body "pause-key-1" "correlation-1" paused.1
    ≡ (ok (answer_of paused.0, true), paused.1)
execute_fault_replays_example =
    execute_fault_replays bench test_controller pause_body "pause-key-1" "correlation-1" fresh
      (answer_of paused.0) paused_test paused_Readable paused.1 (Extends-refl paused.1.files)

pause_once : (operation_id : String) → WritesOnce (pause operation_id)
pause_once = run_drill-WritesOnce bench test_controller pause_drill

journal_paused_test : journal_paused.0 ≡ ok (answer_of journal_paused.0, false)
unfolding is_mark_word container_of check execute by_intent perform finish durable_create run_drill
    container docker_container_action request_docker ◌>>=◌ find utc_now request_digest
journal_paused_test = refl

journal_paused_Readable : Readable journal_paused.1.files
unfolding is_mark_word container_of check execute by_intent perform finish durable_create run_drill
    container docker_container_action request_docker ◌>>=◌ find utc_now request_digest stored
    all_readable
journal_paused_Readable = all_readable-Readable journal_paused.1.files refl

digests_differ :
    (request_digest bench "binding" "fault:service-pause" pause_body "correlation-1"
      == request_digest bench "binding" "fault:service-pause" pause_body "correlation-2")
    ≡ false
unfolding request_digest
digests_differ = refl

execute_conflict_example :
    execute bench "binding" "fault:service-pause" pause_body "pause-key-1" "correlation-2" pause
      journal_paused.1
    ≡ (err (control_error 409 "IDEMPOTENCY_CONFLICT"), journal_paused.1)
execute_conflict_example =
    execute_conflict bench "binding" "fault:service-pause" pause_body "pause-key-1" "correlation-1"
      pause fresh (answer_of journal_paused.0) pause_once journal_paused_test
      (journal_paused_Readable _) journal_paused.1 "fault:service-pause" pause_body "correlation-2"
      pause (Extends-refl journal_paused.1.files) digests_differ

abbrev pause_id : String
pause_id =
    operation_id_of bench "binding"
      (request_digest bench "binding" "fault:service-pause" pause_body "correlation-1")

identifier_test : is_operation_id pause_id ≡ true
unfolding request_digest is_operation_id
identifier_test = refl

closure-execute_example :
    closure bench "binding" pause_id journal_paused.1
    ≡ (ok (put (answer_of journal_paused.0) "action" (str "fault:service-pause")), journal_paused.1)
closure-execute_example =
    closure-execute bench "binding" "fault:service-pause" pause_body "pause-key-1" "correlation-1"
      pause fresh (answer_of journal_paused.0) pause_once journal_paused_test
      (journal_paused_Readable _) journal_paused.1 (Extends-refl journal_paused.1.files)
      identifier_test

-- The files that a first request left.
abbrev closed_world : World
closed_world = record { files = (closure_name pause_id, document end) ∷ []; history = [] }

closed_test : find (closure_name pause_id) closed_world.files ≡ some (document end)
unfolding find request_digest
closed_test = refl

fresh_test : find (intent_name "pause-key-2") closed_world.files ≡ none
unfolding find request_digest
fresh_test = refl

execute_duplicate_example :
    (execute bench "binding" "fault:service-pause" pause_body "pause-key-2" "correlation-1" pause
      closed_world).0
    ≢ ok (end, false)
execute_duplicate_example =
    execute_duplicate bench "binding" "fault:service-pause" pause_body "pause-key-2" "correlation-1"
      pause closed_world (document end) (end, false) pause_once closed_test fresh_test

pause-Succeeds : (operation_id : String) → Succeeds (pause operation_id)
unfolding run_drill container docker_container_action request_docker ◌>>=◌ container_of check
pause-Succeeds operation_id w = (_, _, refl)

execute-Succeeds_example :
    (response : Fields) × ((execute bench "binding" "fault:service-pause" pause_body "pause-key-1"
        "correlation-1" pause fresh).0
      ≡ ok (response, false))
unfolding is_mark_word find request_digest
execute-Succeeds_example =
    execute-Succeeds bench "binding" "fault:service-pause" pause_body "pause-key-1" "correlation-1"
      pause fresh refl (λ history name. refl) pause-Succeeds refl refl refl

abbrev pause_parameters : Fields
pause_parameters = dict (("target", str "indexer") ∷ ("phase", str "pause") ∷ [])

pause_drill_test : fault_drill pause_parameters "service-pause" ≡ ok pause_drill
unfolding fault_drill zkdeal_cloud_deployer_in.Base.Outcome.◌>>=◌ exact_keys check
pause_drill_test = refl

fault_drill-ReviewedFor_example : ReviewedFor pause_parameters "service-pause" pause_drill
fault_drill-ReviewedFor_example =
    fault_drill-ReviewedFor pause_parameters pause_drill "service-pause" pause_drill_test

abbrev no_load : Fields → String → String → Action (Fields × Bool)
no_load body key correlation_id w = (err (control_error 503 "CONTROL_DISABLED"), w)

abbrev stranger : Post
stranger = record {
  path = "/v1/faults";
  authorization = some "Bearer guess";
  idempotency_key = some "pause-key-1";
  correlation_id = some "correlation-1";
  chunked = false;
  content_length = some (pos 300);
  content_type = "application/json";
  payload = object pause_body;
}

do_post_unauthorized_example :
    ((do_post bench test_controller no_load stranger fresh).1 ≡ fresh)
    × ((do_post bench test_controller no_load stranger fresh).0.status ≡ 401)
do_post_unauthorized_example =
    do_post_unauthorized bench test_controller no_load stranger fresh refl (omega arith)
      (omega arith)
