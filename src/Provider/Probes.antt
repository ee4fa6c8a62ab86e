-- ===== src/Provider/Probes.antt =====
-- failover-provider/provider.py: the checks of witnesses, standby, indexer and signer roles, and the
-- polling loops with a deadline.
use zkdeal_cloud_deployer_in.Base.{
  Bool, List, Option, String, [], false, if◌then◌else◌, ltb, nat_eq, none, not, some, suc, true,
  zero, ℕ, ◌&&◌, ◌*◌, ◌+◌, ◌∷◌,
}
use zkdeal_cloud_deployer_in.Base.Lists.{all_of, any_of, contains}
use zkdeal_cloud_deployer_in.Base.Text.{parse_lsn}
use zkdeal_cloud_deployer_in.Base.Json.{
  Fields, Json, as_int, end, eq_str, eq_zero, get, is_false, is_true, negsuc, obj, pos,
}
use zkdeal_cloud_deployer_in.Provider.Model.{
  Action, Reply, Result, Surroundings, answered, err, fetched, looked_at_clock, looked_at_date,
  note, ok, or_missing, out_of_fuel, provider_error, pure, raise, require, resolved, slept,
  unreachable, ◌>>=◌, ◌>>◌,
}

-- `Config`, as far as the provider's operations read it.
pub record Config : Type 0 where
  pub platform : String
  pub active_health_urls : List String
  pub standby_health_url : String
  pub indexer_freshness_url : String
  pub signer_authority_health_urls : List String
  pub active_coordinator_id : String
  pub standby_coordinator_id : String
  pub provider_token : String
  pub approval_token : String
  pub platform_timeout_seconds : ℕ

abbrev pub max_body_bytes : ℕ
max_body_bytes = 1_048_576

-- `lsn_value`
unfoldable pub lsn_value : String → Action ℕ
lsn_value value = or_missing (parse_lsn value) (provider_error 503 "invalid-lsn")

-- What `request_json` makes of an answer: anything but a bounded JSON object is empty.
abbrev pub read_reply : Reply → ℕ × Fields
read_reply unreachable = (0, end)
read_reply (answered status size body) =
    if ltb max_body_bytes size then (0, end) else (status, object_of body)
  where
    object_of : Option Json → Fields
    object_of none = end
    object_of (some (obj fields)) = fields
    object_of (some other) = end

abbrev pub active_healthy : Fields → String → Bool
active_healthy value coordinator_id =
    eq_str (get value "coordinatorId") coordinator_id
    && (eq_str (get value "effectiveRole") "active"
        && (is_true (get value "acceptingWrites") && is_true (get value "fenceFresh")))

abbrev pub standby_safe : Fields → String → Bool
standby_safe value coordinator_id =
    eq_str (get value "coordinatorId") coordinator_id
    && (eq_str (get value "configuredRole") "standby"
        && (eq_str (get value "effectiveRole") "standby" && is_false (get value "acceptingWrites")))

-- `value == n` for a value that is an integer
abbrev pub eq_count : Json → ℕ → Bool
eq_count value n = elim (as_int value) [
  | none ↦ false
  | some (pos m) ↦ nat_eq m n
  | some (negsuc m) ↦ false
]

-- The addresses of a witness: at least one.
abbrev pub addresses_of : Option (List String) → Result (List String)
addresses_of none = err (provider_error 503 "witness-dns-failed")
addresses_of (some []) = err (provider_error 503 "witness-dns-failed")
addresses_of (some (address ∷ rest)) = ok (address ∷ rest)

-- `left & right`
abbrev pub overlap : List String → List String → Bool
overlap left right = any_of (contains right) left

abbrev pub pairwise_disjoint : List (List String) → Bool
pairwise_disjoint [] = true
pairwise_disjoint (left ∷ rest) =
    all_of (λ right. if overlap left right then false else true) rest && pairwise_disjoint rest

-- What a round of a polling loop leaves to do: nothing more, or a pause and the `rest`.
unfoldable pub unless_found : {A : Type 0} → Option A → Action (Option A) → Action (Option A)
unless_found (some a) rest = pure (some a)
unless_found none rest = note slept >>= λ _. rest

unfoldable pub while_in_time : {A : Type 0} → Bool → Action (Option A) → Action (Option A)
while_in_time false round = pure none
while_in_time true round = round

unfoldable pub or_inactive : Option (Unit {0}) → Action (Unit {0})
or_inactive none = raise (provider_error 503 "signer-activation-failed")
or_inactive (some done) = pure tt

module _ (env : Surroundings) where
  unfoldable pub fetch : String → Action (ℕ × Fields)
  fetch url w =
      (ok (read_reply (env.open_url w.history url)), record w { history = fetched url ∷ w.history })

  unfoldable pub monotonic : Action ℕ
  monotonic w = (ok (env.monotonic w.history), record w { history = looked_at_clock ∷ w.history })

  unfoldable pub wall : Action ℕ
  wall w = (ok (env.wall w.history), record w { history = looked_at_date ∷ w.history })

  -- `while time.monotonic() < deadline: …; time.sleep(1)`: the body's value ends the loop, and the
  -- result is absent if the deadline passes.
  unfoldable pub poll : {A : Type 0} → ℕ → ℕ → Action (Option A) → Action (Option A)
  poll zero deadline body = raise out_of_fuel
  poll (suc fuel) deadline body = do
    now ← monotonic
    while_in_time (ltb now deadline)
        (body >>= λ found. unless_found found (poll fuel deadline body))

  -- The loop of a deadline `seconds` from now: one round for each second, and the last test.
  unfoldable pub poll_for : {A : Type 0} → ℕ → Action (Option A) → Action (Option A)
  poll_for seconds body = do begun ← monotonic; poll (suc seconds) (begun + seconds * 1000) body

  unfoldable pub resolve_one : String → Action (List String)
  resolve_one url w =
      (addresses_of (env.resolve w.history url), record w { history = resolved url ∷ w.history })

  unfoldable pub resolve_all : List String → Action (List (List String))
  resolve_all [] = pure []
  resolve_all (url ∷ rest) = do
    addresses ← resolve_one url
    others ← resolve_all rest
    pure (addresses ∷ others)

  unfoldable pub witness_networks : List String → Action (List (List String))
  unfolding resolve_all resolve_one
  witness_networks urls = do
    identities ← resolve_all urls
    require (pairwise_disjoint identities) (provider_error 503 "witnesses-not-independent")
    pure identities

  -- The loop over the witnesses counts those that failed.
  unfoldable pub count_failed : String → List String → ℕ → Action ℕ
  count_failed coordinator_id [] failed = pure failed
  count_failed coordinator_id (url ∷ rest) failed = do
    reply ← fetch url
    require (not (nat_eq reply.0 200 && active_healthy reply.1 coordinator_id))
        (provider_error 409 "active-witness-veto")
    count_failed coordinator_id rest (failed + 1)

  module _ (config : Config) where
    -- `request["activeCoordinatorId"]` is the configured identity here: `_prepare` has compared them.
    unfoldable pub verify_witness_failures : String → Json → Action (Unit {0})
    verify_witness_failures coordinator_id claimed = do
      witness_networks config.active_health_urls
      failed ← count_failed coordinator_id config.active_health_urls 0
      require (not (ltb failed 2) && eq_count claimed failed)
          (provider_error 409 "witness-count-mismatch")

    unfoldable pub verify_standby : String → Action (Unit {0})
    verify_standby coordinator_id = do
      reply ← fetch config.standby_health_url
      require (nat_eq reply.0 200 && standby_safe reply.1 coordinator_id)
          (provider_error 503 "standby-not-safe")

    unfoldable pub verify_indexer : Action (Unit {0})
    verify_indexer = do
      reply ← fetch config.indexer_freshness_url
      require
          (nat_eq reply.0 200
            && (is_true (get reply.1 "indexerHeadMatchesL1")
                && eq_zero (get reply.1 "unresolvedSafetyEvents")))
          (provider_error 503 "indexer-not-fresh")

    -- One observation pass probes every role, and is healthy if each answered 200.
    unfoldable pub signer_pass : List String → Action Bool
    signer_pass [] = pure true
    signer_pass (url ∷ rest) = do
      reply ← fetch url
      healthy ← signer_pass rest
      pure (nat_eq reply.0 200 && healthy)

    unfoldable pub signer_round : Action (Option (Unit {0}))
    signer_round = do
      healthy ← signer_pass config.signer_authority_health_urls
      pure (if healthy then some tt else none)

    unfoldable pub verify_signer_authority : Action (Unit {0})
    unfolding signer_round
    verify_signer_authority = do
      passed ← poll_for config.platform_timeout_seconds signer_round
      or_inactive passed
