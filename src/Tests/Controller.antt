-- ===== src/Tests/Controller.antt =====
-- scripts/promotion_controller.py: the theorems about its runs at concrete inputs. Two witnesses are
-- down, and the provider and the owner answer as they should.
use zkdeal_cloud_deployer_in.Base.{
  String, [], arith, false, if◌then◌else◌, refl, some, true, ℕ, ◌*◌, ◌+◌, ◌==◌, ◌∷◌, ◌≡◌, ◌≢◌,
}
use zkdeal_cloud_deployer_in.Base.Json.{Fields, bool, dict, end, num, obj, scalar_text, str}
use zkdeal_cloud_deployer_in.Base.Text.{parse_lsn}
use zkdeal_cloud_deployer_in.Promotion.Model.{
  Config, History, Reply, Surroundings, answered, emit, err, failed, json, monotonic, ok,
  out_of_fuel, read_reply, request_json, slept, ◌>>=◌,
}
use zkdeal_cloud_deployer_in.Promotion.Validate.{
  active_witness_healthy, all_proved, standby_ready, validate_commit, validate_owner_promotion,
  validate_prepare,
}
use zkdeal_cloud_deployer_in.Promotion.Monitor.{
  cycle_end, end_cycle, failure_start, judge, monitor, threshold_reached, witness, witnesses,
}
use zkdeal_cloud_deployer_in.Promotion.Promote.{
  after_monitor, commit_promotion, completion, promote, promote_owner, run,
}
use zkdeal_cloud_deployer_in.Promotion.Discipline.{posts}
use zkdeal_cloud_deployer_in.Promotion.Discipline.Order.{Posted, run-Posted}
use zkdeal_cloud_deployer_in.Promotion.Outage.{LongOutage, monitor-LongOutage}
use zkdeal_cloud_deployer_in.Promotion.Window.{monitor_enough_fuel}
use zkdeal_cloud_deployer_in.Promotion.Recovery.{InTime, monitoring, run-InTime}
use zkdeal_cloud_deployer_in.Provider.Docker.{committed_response, ready_response}

abbrev pub controller : Config
controller = record {
  active_health_urls = "http://w1" ∷ "http://w2" ∷ [];
  standby_health_url = "http://standby";
  failover_provider_url = "http://provider";
  promotion_endpoint = "http://owner";
  active_coordinator_id = "node-a";
  standby_coordinator_id = "node-b";
  candidate_id = "candidate-1";
  provider_token = "provider-token";
  approval_token = "approval-token";
  principal_token = "principal-token";
  failure_threshold = 3;
  max_monitor_cycles = 5;
  max_rto_seconds = 60;
  max_checkpoint_age_seconds = 30;
  armed = true;
}

abbrev reply_with : Fields → Reply
reply_with fields = answered 200 100 (json (obj fields))

abbrev answer : String → Reply
answer url =
    if url == "http://standby"
    then reply_with (
        dict (
          ("coordinatorId", str "node-b")
          ∷ ("configuredRole", str "standby")
          ∷ ("effectiveRole", str "standby")
          ∷ ("acceptingWrites", bool false)
          ∷ []))
    else if url == "http://provider"
    then reply_with (ready_response (str "candidate-1") "0/10" "0/20")
    else if url == "http://owner"
    then reply_with (
        dict (
          ("promoted", bool true)
          ∷ ("indexerHeadMatchesL1", bool true)
          ∷ ("effectiveRole", str "active")
          ∷ ("promotionReplication", obj end)
          ∷ []))
    else if url == "http://provider/candidate-1/commit"
    then reply_with (committed_response "candidate-1" "node-b")
    else failed

abbrev count_pauses : History → ℕ
count_pauses [] = 0
count_pauses (slept ∷ h) = let before = count_pauses h in before + 1
count_pauses (e ∷ h) = count_pauses h

abbrev net : Surroundings
net = record {
  open_url = λ h request. answer request.url;
  monotonic = λ h. 1000 * count_pauses h;
  seconds = num;
  digest = λ fields. "digest";
  quote = λ text. text;
}

abbrev outcome : Fields
outcome = completion net controller "candidate-1" 2000

run_promotes : (run net controller 5 []).0 ≡ ok (some outcome)
unfolding run monitor witnesses witness cycle_end failure_start end_cycle threshold_reached
    after_monitor promote promote_owner commit_promotion ◌>>=◌ emit monotonic request_json
    read_reply judge active_witness_healthy standby_ready validate_prepare validate_owner_promotion
    validate_commit all_proved scalar_text parse_lsn
run_promotes = refl

run-Posted_example : Posted net controller (posts (run net controller 5 []).1)
run-Posted_example = run-Posted net controller 5 [] refl

run-InTime_example :
    (first_failure : ℕ) × ((monitor net controller 5 0 0 0 (monitoring net controller [])).0
      ≡ ok (some first_failure))
    × InTime net controller first_failure (run net controller 5 []).1 outcome
run-InTime_example = run-InTime net controller 5 [] outcome run_promotes

monitor_leaves : (monitor net controller 5 0 0 0 []).0 ≡ ok (some 0)
unfolding monitor witnesses witness cycle_end failure_start end_cycle threshold_reached ◌>>=◌ emit
    monotonic read_reply judge active_witness_healthy
monitor_leaves = refl

monitor-LongOutage_example : LongOutage net controller 0 (monitor net controller 5 0 0 0 []).1
monitor-LongOutage_example = monitor-LongOutage net controller 5 [] 0 monitor_leaves

monitor_enough_fuel_example : (monitor net controller 5 0 0 0 []).0 ≢ err out_of_fuel
monitor_enough_fuel_example = monitor_enough_fuel net controller 5 [] (omega arith) (omega arith)
