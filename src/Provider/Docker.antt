-- ===== src/Provider/Docker.antt =====
-- failover-provider/provider.py, `DockerSettings` and `DockerDriver`.
use zkdeal_cloud_deployer_in.Base.{
  Bool, List, Option, String, [], false, if◌then◌else◌, leb, nat_eq, none, not, some, true, within,
  ◌&&◌, ◌==◌, ◌||◌, ◌∷◌,
}
use zkdeal_cloud_deployer_in.Base.Lists.{all_of, any_of, length}
use zkdeal_cloud_deployer_in.Base.Text.{codes, is_digit, is_lower_hex}
use zkdeal_cloud_deployer_in.Base.Json.{Fields, Json, bool, dict, num, str}
use zkdeal_cloud_deployer_in.Base.Decimal.{concat}
use zkdeal_cloud_deployer_in.Provider.Model.{
  Action, Command, Completed, Result, Surroundings, connect, disconnect, drop, err, finished,
  inspect, ok, promote, provider_error, ps, psql, pure, raise, ran, require, start, stop,
  text_or_none, timed_out, unexpected, when, ◌>>=◌, ◌>>◌,
}
use zkdeal_cloud_deployer_in.Provider.Probes.{
  Config, lsn_value, poll_for, verify_indexer, verify_signer_authority,
}

pub record Settings : Type 0 where
  pub project : String
  pub network : String
  pub active_service : String
  pub standby_service : String
  pub primary_db_service : String
  pub standby_db_service : String
  pub signer_service : String
  pub database_alias : String
  pub application_alias : String
  pub pg_user : String
  pub pg_database : String
  pub pg_data : String

abbrev pub count_synchronous : String
count_synchronous =
    "select count(*) from pg_stat_replication where state='streaming' and sync_state in ('sync','quorum')"

abbrev pub flush_lsn : String
flush_lsn = "select pg_current_wal_flush_lsn()"

abbrev pub in_recovery : String
in_recovery = "select pg_is_in_recovery()"

abbrev pub replay_lsn : String
replay_lsn = "select coalesce(pg_last_wal_replay_lsn()::text,'')"

-- `synchronous.isdigit() and int(synchronous) >= 1`, for ASCII digits
abbrev pub at_least_one : String → Bool
at_least_one text = all_of is_digit (codes text) && any_of (λ c. not (nat_eq c b'0')) (codes text)

-- What both drivers answer to a prepare request.
abbrev pub ready_response : Json → String → String → Fields
ready_response candidate target replay = dict (
    ("operationId", candidate)
    ∷ ("status", str "READY_FOR_APPLICATION_PROMOTION")
    ∷ ("activeFenced", bool true)
    ∷ ("oldWriterTerminated", bool true)
    ∷ ("targetCapturedByProvider", bool true)
    ∷ ("databasePromoted", bool true)
    ∷ ("standbyReplayAtOrAfterTarget", bool true)
    ∷ ("indexerHeadMatchesL1", bool true)
    ∷ ("stableDatabaseEndpointRouted", bool true)
    ∷ ("standbySignerAuthorityActive", bool false)
    ∷ ("primaryTargetSource", str "durable-fenced-wal-checkpoint")
    ∷ ("primaryTargetLsn", str target)
    ∷ ("standbyReplayLsn", str replay)
    ∷ ("checkpointAgeSeconds", num 0)
    ∷ [])

-- What both drivers answer to a commit request.
abbrev pub committed_response : String → String → Fields
committed_response operation_id standby_coordinator_id = dict (
    ("operationId", str operation_id)
    ∷ ("writerRouteCommitted", bool true)
    ∷ ("writerCoordinatorId", str standby_coordinator_id)
    ∷ ("oldWriterRouteRemoved", bool true)
    ∷ ("stableDatabaseEndpointRouted", bool true)
    ∷ ("signerAuthorityActivatedAfterFence", bool true)
    ∷ [])

-- `recovery in {"t", "f"} and replay and lsn_value(replay) >= lsn_value(target)`, the loop's `break`
-- with the replayed position
unfoldable pub compare_replay : Bool → String → String → Action (Option String)
compare_replay false target replay = pure none
compare_replay true target replay = do
  reached ← lsn_value replay
  wanted ← lsn_value target
  pure (if leb wanted reached then some replay else none)

unfoldable pub caught_up : String → String → String → Action (Option String)
caught_up target recovery replay =
    compare_replay ((recovery == "t" || recovery == "f") && not (replay == "")) target replay

-- `[0-9a-f]{12,64}`
abbrev pub is_container_id : String → Bool
is_container_id text = all_of is_lower_hex (codes text) && within 12 (length (codes text)) 64

module _ (settings : Settings) where
  -- The argument vector of each fixed command.
  unfoldable pub argv : Command → List String
  argv (ps service) =
      "docker"
      ∷ "ps"
      ∷ "-aq"
      ∷ "--filter"
      ∷ concat ("label=com.docker.compose.project=" ∷ settings.project ∷ [])
      ∷ "--filter"
      ∷ concat ("label=com.docker.compose.service=" ∷ service ∷ [])
      ∷ []
  argv (inspect container) =
      "docker" ∷ "inspect" ∷ "--format" ∷ "{{.State.Running}}" ∷ container ∷ []
  argv (stop container) = "docker" ∷ "stop" ∷ "--time" ∷ "10" ∷ container ∷ []
  argv (start container) = "docker" ∷ "start" ∷ container ∷ []
  argv (disconnect container) =
      "docker" ∷ "network" ∷ "disconnect" ∷ "-f" ∷ settings.network ∷ container ∷ []
  argv (connect alias container) =
      "docker" ∷ "network" ∷ "connect" ∷ "--alias" ∷ alias ∷ settings.network ∷ container ∷ []
  argv (psql container query) =
      "docker" ∷ "exec" ∷ container ∷ "psql" ∷ "-U" ∷ settings.pg_user ∷ "-d" ∷ settings.pg_database
      ∷ "--set" ∷ "ON_ERROR_STOP=1" ∷ "-tAc" ∷ query ∷ []
  argv (promote container) =
      "docker" ∷ "exec" ∷ "--user" ∷ "postgres" ∷ container ∷ "pg_ctl" ∷ "-D" ∷ settings.pg_data
      ∷ "promote" ∷ "-w" ∷ []
  argv _ = []

  module _ (env : Surroundings) where
    unfoldable pub completed : Completed → Bool → Result String
    completed timed_out tolerate = err unexpected
    completed (finished success output) tolerate =
        if success || tolerate
        then ok output
        else err (provider_error 503 "docker-operation-failed")

    unfoldable pub run_with : Bool → Command → Action String
    unfolding completed
    run_with tolerate command w = (
      completed (env.run w.history (argv command)) tolerate,
      record w { history = ran command ∷ w.history },
    )

    unfoldable pub run : Command → Action String
    unfolding run_with
    run = run_with false

    unfoldable pub run_tolerant : Command → Action String
    unfolding run_with
    run_tolerant = run_with true

    unfoldable pub one_line : List String → Action String
    one_line (line ∷ []) = do
      require (is_container_id line) (provider_error 503 "docker-target-ambiguous")
      pure line
    one_line _ = raise (provider_error 503 "docker-target-ambiguous")

    unfoldable pub container : String → Action String
    unfolding one_line
    container service = do output ← run (ps service); one_line (env.splitlines output)

    unfoldable pub running : String → Action Bool
    running c = do output ← run (inspect c); pure (output == "true")

    unfoldable pub stop_container : String → Action (Unit {0})
    stop_container c = do
      up ← running c
      when up (drop (run (stop c)))
      still ← running c
      require (not still) (provider_error 503 "docker-fence-failed")

    unfoldable pub route_alias : String → String → Action (Unit {0})
    route_alias c alias = do run_tolerant (disconnect c); run (connect alias c); pure tt

    -- The primary's durable position, captured while it still runs and before it is fenced.
    unfoldable pub capture_target : (String → Action (Unit {0})) → String → Action String
    capture_target checkpoint primary = do
      up ← running primary
      require up (provider_error 503 "primary-target-unavailable")
      synchronous ← run (psql primary count_synchronous)
      require (at_least_one synchronous) (provider_error 503 "standby-not-synchronous")
      target ← run (psql primary flush_lsn)
      lsn_value target
      checkpoint target
      pure target

    unfoldable pub choose_target :
        Option String → (String → Action (Unit {0})) → String → Action String
    choose_target (some target) checkpoint primary = pure target
    choose_target none checkpoint primary = capture_target checkpoint primary

    unfoldable pub replay_round : String → String → Action (Option String)
    replay_round target standby_db = do
      recovery ← run (psql standby_db in_recovery)
      replay ← run (psql standby_db replay_lsn)
      caught_up target recovery replay

    unfoldable pub or_stale : Option String → Action String
    or_stale none = raise (provider_error 503 "standby-replay-stale")
    or_stale (some replay) = pure replay

    unfoldable pub promote_database : String → Action (Unit {0})
    promote_database standby_db = do
      before ← run (psql standby_db in_recovery)
      when (before == "t") (drop (run (promote standby_db)))
      after ← run (psql standby_db in_recovery)
      require (after == "f") (provider_error 503 "database-promotion-failed")

    -- The fence of the former writer, before which no signer may be active.
    unfoldable pub fence_writer : String → String → Action (Unit {0})
    fence_writer active signer = do
      stop_container active
      enabled ← running signer
      require (not enabled) (provider_error 503 "signer-enabled-too-early")

    module _ (config : Config) where
      -- The loop that waits for the standby, and its `else`.
      unfoldable pub await_replay : String → String → Action String
      await_replay target standby_db = do
        found ← poll_for env config.platform_timeout_seconds (replay_round target standby_db)
        or_stale found

      unfoldable pub switch_database : String → String → Action (Unit {0})
      switch_database primary standby_db = do
        stop_container primary
        promote_database standby_db
        run_tolerant (disconnect primary)
        route_alias standby_db settings.database_alias
        verify_indexer env config

      unfoldable pub prepare : Json → Option String → (String → Action (Unit {0})) → Action Fields
      prepare candidate existing_target checkpoint = do
        active ← container settings.active_service
        container settings.standby_service
        primary ← container settings.primary_db_service
        standby_db ← container settings.standby_db_service
        signer ← container settings.signer_service
        fence_writer active signer
        target ← choose_target (text_or_none existing_target) checkpoint primary
        replay ← await_replay target standby_db
        switch_database primary standby_db
        pure (ready_response candidate target replay)

      unfoldable pub activate_signer : String → Action (Unit {0})
      activate_signer signer = do
        up ← running signer
        when (not up) (drop (run (start signer)))
        now_up ← running signer
        require now_up (provider_error 503 "signer-activation-failed")

      unfoldable pub commit : String → Action Fields
      commit operation_id = do
        active ← container settings.active_service
        standby ← container settings.standby_service
        signer ← container settings.signer_service
        stop_container active
        run_tolerant (disconnect active)
        route_alias standby settings.application_alias
        activate_signer signer
        verify_signer_authority env config
        pure (committed_response operation_id config.standby_coordinator_id)
