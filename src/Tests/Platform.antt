-- ===== src/Tests/Platform.antt =====
-- A Docker host and its services for runs of failover-provider/provider.py: five containers, two
-- failed witnesses, a standby that has replayed the primary's position, and a clock that only sleeping
-- moves.
use zkdeal_cloud_deployer_in.Base.{
  Bool, List, String, [], arith, false, if◌then◌else◌, none, some, true, ℕ, ◌*◌, ◌+◌, ◌==◌, ◌∷◌,
  ◌≤◌,
}
use zkdeal_cloud_deployer_in.Base.Json.{Fields, bool, dict, end, num, obj, str}
use zkdeal_cloud_deployer_in.Provider.Model.{
  Completed, Event, History, Reply, Surroundings, World, answered, err, fetched, finished,
  looked_at_clock, looked_at_date, promote, ran, resolved, saved, slept, start, stop, unreachable,
  value_error,
}
use zkdeal_cloud_deployer_in.Provider.Probes.{Config}
use zkdeal_cloud_deployer_in.Provider.Docker

abbrev pub host_settings : Docker.Settings
host_settings = record {
  project = "cloud";
  network = "cloud-net";
  active_service = "active";
  standby_service = "standby";
  primary_db_service = "primary-db";
  standby_db_service = "standby-db";
  signer_service = "signer";
  database_alias = "database";
  application_alias = "application";
  pg_user = "app";
  pg_database = "app";
  pg_data = "/data";
}

abbrev pub host_config : Config
host_config = record {
  platform = "docker";
  active_health_urls = "http://w1" ∷ "http://w2" ∷ [];
  standby_health_url = "http://standby";
  indexer_freshness_url = "http://indexer";
  signer_authority_health_urls = "http://signer" ∷ [];
  active_coordinator_id = "node-a";
  standby_coordinator_id = "node-b";
  provider_token = "provider-token";
  approval_token = "approval-token";
  platform_timeout_seconds = 3;
}

-- The last start or stop of a container; at the beginning all but the signer run.
abbrev is_up : History → String → Bool
is_up [] c = if c == "eeeeeeeeeeee" then false else true
is_up (ran (stop d) ∷ h) c = let before = is_up h c in if c == d then false else before
is_up (ran (start d) ∷ h) c = let before = is_up h c in if c == d then true else before
is_up (e ∷ h) c = is_up h c

abbrev was_promoted : History → Bool
was_promoted [] = false
was_promoted (ran (promote c) ∷ h) = true
was_promoted (e ∷ h) = was_promoted h

abbrev container_of : String → String
container_of filter =
    if filter == "label=com.docker.compose.service=active"
    then "aaaaaaaaaaaa"
    else if filter == "label=com.docker.compose.service=standby"
    then "bbbbbbbbbbbb"
    else if filter == "label=com.docker.compose.service=primary-db"
    then "cccccccccccc"
    else if filter == "label=com.docker.compose.service=standby-db"
    then "dddddddddddd"
    else "eeeeeeeeeeee"

abbrev answer_query : History → String → String
answer_query h query =
    if query == Docker.in_recovery
    then (if was_promoted h then "f" else "t")
    else if query == Docker.flush_lsn
    then "0/10"
    else if query == Docker.replay_lsn
    then "0/20"
    else "1"

abbrev host_run : History → List String → Completed
host_run h (docker ∷ verb ∷ a ∷ b ∷ c ∷ []) = finished true (if is_up h c then "true" else "false")
host_run h (docker ∷ verb ∷ a ∷ b ∷ c ∷ d ∷ service ∷ []) = finished true (container_of service)
host_run h (docker ∷ verb ∷ a ∷ b ∷ c ∷ d ∷ e ∷ f ∷ g ∷ i ∷ j ∷ query ∷ []) =
    finished true (answer_query h query)
host_run h other = finished true ""

abbrev host_reply : String → Reply
host_reply url =
    if url == "http://standby"
    then answered 200 100 (
        some (
          obj (
            dict (
              ("coordinatorId", str "node-b")
              ∷ ("configuredRole", str "standby")
              ∷ ("effectiveRole", str "standby")
              ∷ ("acceptingWrites", bool false)
              ∷ []))))
    else if url == "http://indexer"
    then answered 200 100 (
        some (
          obj
            (dict (("indexerHeadMatchesL1", bool true) ∷ ("unresolvedSafetyEvents", num 0) ∷ []))))
    else if url == "http://signer"
    then answered 200 2 (some (obj end))
    else unreachable

abbrev pub count_pauses : History → ℕ
count_pauses [] = 0
count_pauses (slept ∷ h) = let before = count_pauses h in before + 1
count_pauses (e ∷ h) = count_pauses h

abbrev pub host : Surroundings
host = record {
  run = host_run;
  open_url = λ h url. host_reply url;
  resolve = λ h url. some (url ∷ []);
  monotonic = λ h. 1000 * count_pauses h;
  wall = λ h. 1_700_000_000_000;
  splitlines = λ text. text ∷ [];
  parse_json = λ text. none;
  dumps = λ fields. "{}";
  int_of = λ value. err value_error;
  sha256 = λ text. text;
  canonical_hash = λ fields. "hash";
}

abbrev pub prepare_body : Fields
prepare_body = dict (
    ("candidateId", str "candidate-1")
    ∷ ("activeCoordinatorId", str "node-a")
    ∷ ("standbyCoordinatorId", str "node-b")
    ∷ ("failedWitnessCount", num 2)
    ∷ [])

abbrev pub empty_world : World
empty_world = record { operations = []; history = [] }

pub pauses_grow : (h : History) (e : Event) → 1000 * count_pauses h ≤ 1000 * count_pauses (e ∷ h)
pauses_grow h slept = omega arith
pauses_grow h (ran command) = omega arith
pauses_grow h (fetched url) = omega arith
pauses_grow h (resolved url) = omega arith
pauses_grow h looked_at_clock = omega arith
pauses_grow h looked_at_date = omega arith
pauses_grow h (saved operations) = omega arith

pub pause_lasts : (h : History) → 1000 * count_pauses h + 1000 ≤ 1000 * count_pauses (slept ∷ h)
pause_lasts h = omega arith
