-- ===== src/Promotion/Monitor.antt =====
-- scripts/promotion_controller.py, the monitoring loop of `run`.
use zkdeal_cloud_deployer_in.Base.{
  Bool, List, Option, String, [], false, if◌then◌else◌, leb, nat_eq, none, not, some, suc, true,
  zero, ℕ, ◌&&◌, ◌+◌, ◌∷◌,
}
use zkdeal_cloud_deployer_in.Base.Json.{Fields, bool, dict, num}
use zkdeal_cloud_deployer_in.Promotion.Model.{
  Action, Config, Request, Result, Surroundings, asked, emit, err, get_method, monotonic, note, ok,
  out_of_fuel, pure, raise, read_reply, refused, slept, value_error, ◌>>=◌, ◌>>◌,
}
use zkdeal_cloud_deployer_in.Promotion.Validate.{active_witness_healthy}

abbrev pub get_request : String → Request
get_request url = record {
  url = url;
  method = get_method;
  token = none;
  idempotency_key = none;
  approval_token = none;
  body = none;
}

-- Whether a witness counts as healthy. A `ControllerError` counts as a failure, and only that one.
unfoldable pub judge : String → Result Fields → Result Bool
judge active_id (ok value) = ok (active_witness_healthy value active_id)
judge active_id (err (refused refusal)) = ok false
judge active_id (err value_error) = err value_error
judge active_id (err out_of_fuel) = err out_of_fuel

module _ (env : Surroundings) (config : Config) where
  unfoldable pub witness : String → Action Bool
  witness url h = (
    judge config.active_coordinator_id (read_reply (env.open_url h (get_request url))),
    asked (get_request url) ∷ h,
  )

  -- The numbers of healthy and of failed witnesses of one cycle.
  unfoldable pub witnesses : List String → ℕ → ℕ → Action (ℕ × ℕ)
  witnesses [] healthy lost = pure (healthy, lost)
  witnesses (url ∷ rest) healthy lost = do
    up ← witness url
    witnesses rest (if up then healthy + 1 else healthy) (if up then lost else lost + 1)

  -- The time of the first failure of a row of failures.
  unfoldable pub failure_start : ℕ → ℕ → Action ℕ
  failure_start zero first_failure = monotonic env
  failure_start (suc n) first_failure = pure first_failure

  -- `config.max_monitor_cycles and cycle >= config.max_monitor_cycles`
  abbrev pub window_over : ℕ → Bool
  window_over cycle =
      not (nat_eq config.max_monitor_cycles 0) && leb config.max_monitor_cycles cycle

  -- The end of a cycle that did not leave the loop.
  unfoldable pub end_cycle : Bool → Action (Option ℕ) → Action (Option ℕ)
  end_cycle true rest = do
    emit "monitor-window-complete" (dict (("promoted", bool false) ∷ []))
    pure none
  end_cycle false rest = do note slept; rest

  unfoldable pub threshold_reached : Bool → ℕ → Action (Option ℕ) → Action (Option ℕ)
  threshold_reached true first_failure rest = pure (some first_failure)
  threshold_reached false first_failure rest = rest

  -- What follows the witnesses: `again consecutive first_failure` goes on with the loop.
  unfoldable pub cycle_end : ℕ → ℕ → ℕ → ℕ × ℕ → (ℕ → ℕ → Action (Option ℕ)) → Action (Option ℕ)
  cycle_end cycle consecutive first_failure (suc healthy, lost) again = do
    emit "active-healthy"
        (dict (("cycle", num cycle) ∷ ("healthyWitnesses", num (suc healthy)) ∷ []))
    end_cycle (window_over cycle) (again 0 0)
  cycle_end cycle consecutive first_failure (zero, lost) again = do
    begun ← failure_start consecutive first_failure
    emit "active-unhealthy" (
        dict (
          ("cycle", num cycle)
          ∷ ("consecutiveFailures", num (consecutive + 1))
          ∷ ("failedWitnesses", num lost)
          ∷ []))
    threshold_reached (leb config.failure_threshold (consecutive + 1)) begun
        (end_cycle (window_over cycle) (again (consecutive + 1) begun))

  -- `while True`, with the time of the first failure when the threshold is reached, or nothing when
  -- the monitoring window ends.
  unfoldable pub monitor : ℕ → ℕ → ℕ → ℕ → Action (Option ℕ)
  monitor zero cycle consecutive first_failure = raise out_of_fuel
  monitor (suc fuel) cycle consecutive first_failure = do
    counts ← witnesses config.active_health_urls 0 0
    cycle_end (cycle + 1) consecutive first_failure counts (monitor fuel (cycle + 1))
