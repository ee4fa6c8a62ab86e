-- ===== src/Promotion/Promote.antt =====
-- scripts/promotion_controller.py, `run`: after the monitoring loop, the promotion itself.
use zkdeal_cloud_deployer_in.Base.{Option, String, [], leb, none, some, true, ℕ, ◌*◌, ◌-◌, ◌∷◌}
use zkdeal_cloud_deployer_in.Base.Lists.{length}
use zkdeal_cloud_deployer_in.Base.Json.{Fields, bool, dict, end, num, str}
use zkdeal_cloud_deployer_in.Base.Decimal.{concat}
use zkdeal_cloud_deployer_in.Promotion.Model.{
  Action, Config, Request, Result, Surroundings, check, emit, err, lift, monotonic, not_armed, ok,
  post_method, pure, request_json, rto_exceeded, standby_not_ready, ◌>>=◌, ◌>>◌,
}
use zkdeal_cloud_deployer_in.Promotion.Validate.{
  standby_ready, validate_commit, validate_owner_promotion, validate_prepare,
}
use zkdeal_cloud_deployer_in.Promotion.Monitor.{get_request, monitor}

module _ (env : Surroundings) (config : Config) where
  abbrev pub prepare_request : Request
  prepare_request = record {
    url = config.failover_provider_url;
    method = post_method;
    token = some config.provider_token;
    idempotency_key = some config.candidate_id;
    approval_token = some config.approval_token;
    body = some (
        dict (
          ("candidateId", str config.candidate_id)
          ∷ ("activeCoordinatorId", str config.active_coordinator_id)
          ∷ ("standbyCoordinatorId", str config.standby_coordinator_id)
          ∷ ("failedWitnessCount", num (length config.active_health_urls))
          ∷ []));
  }

  abbrev pub owner_request : Request
  owner_request = record {
    url = config.promotion_endpoint;
    method = post_method;
    token = some config.principal_token;
    idempotency_key = some (concat (config.candidate_id ∷ ":owner" ∷ []));
    approval_token = none;
    body = some end;
  }

  abbrev pub commit_request : String → String → Request
  commit_request operation_id owner_hash = record {
    url = concat (config.failover_provider_url ∷ "/" ∷ env.quote operation_id ∷ "/commit" ∷ []);
    method = post_method;
    token = some config.provider_token;
    idempotency_key = some (concat (config.candidate_id ∷ ":commit" ∷ []));
    approval_token = some config.approval_token;
    body = some (dict (("ownerResponseSha256", str owner_hash) ∷ []));
  }

  abbrev pub completion : String → ℕ → Fields
  completion operation_id elapsed = dict (
      ("promoted", bool true)
      ∷ ("operationId", str operation_id)
      ∷ ("rtoSeconds", env.seconds elapsed)
      ∷ ("oldWriterFenced", bool true)
      ∷ ("databasePromoted", bool true)
      ∷ ("ownerPromoted", bool true)
      ∷ ("writerRouteCommitted", bool true)
      ∷ ("signerActivatedOnlyAfterFence", bool true)
      ∷ [])

  unfoldable pub commit_promotion : ℕ → String → String → Action Fields
  commit_promotion first_failure operation_id owner_hash = do
    commit ← request_json env (commit_request operation_id owner_hash)
    lift (validate_commit config operation_id commit)
    now ← monotonic env
    lift (check (leb (now - first_failure) (config.max_rto_seconds * 1000)) rto_exceeded)
    emit "promotion-complete" (completion operation_id (now - first_failure))
    pure (completion operation_id (now - first_failure))

  unfoldable pub promote_owner : ℕ → String → Action Fields
  promote_owner first_failure operation_id = do
    owner ← request_json env owner_request
    lift (validate_owner_promotion owner)
    emit "owner-promoted" (
        dict (
          ("operationId", str operation_id) ∷ ("ownerResponseSha256", str (env.digest owner)) ∷ []))
    commit_promotion first_failure operation_id (env.digest owner)

  unfoldable pub promote : ℕ → Action Fields
  promote first_failure = do
    lift (check config.armed not_armed)
    standby ← request_json env (get_request config.standby_health_url)
    lift (check (standby_ready standby config.standby_coordinator_id) standby_not_ready)
    prepare ← request_json env prepare_request
    operation_id ← lift (validate_prepare config prepare)
    emit "provider-fenced-and-promoted" (dict (("operationId", str operation_id) ∷ []))
    promote_owner first_failure operation_id

  unfoldable pub after_monitor : Option ℕ → Action (Option Fields)
  after_monitor none = pure none
  after_monitor (some first_failure) = do outcome ← promote first_failure; pure (some outcome)

  -- `run`, with at most `fuel` cycles of the loop
  unfoldable pub run : ℕ → Action (Option Fields)
  run fuel = do
    emit "monitoring" (
        dict (
          ("armed", bool config.armed)
          ∷ ("witnessCount", num (length config.active_health_urls))
          ∷ []))
    reached ← monitor env config fuel 0 0 0
    after_monitor reached

  -- `main`: the exit status
  abbrev pub exit_status : Result (Option Fields) → ℕ
  exit_status (ok (some outcome)) = 0
  exit_status (ok none) = 3
  exit_status (err fault) = 1
