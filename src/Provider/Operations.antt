-- ===== src/Provider/Operations.antt =====
-- failover-provider/provider.py, `Provider`: authentication, `_prepare`, `_commit` and `status`. The
-- lock around the two mutations makes each of them one step. A driver is a pair of actions, as the
-- class `Driver` declares it.
use zkdeal_cloud_deployer_in.Base.{
  Bool, List, Option, String, [], false, none, not, some, true, ℕ, ◌&&◌, ◌+◌, ◌-◌, ◌/◌, ◌==◌, ◌∷◌,
}
use zkdeal_cloud_deployer_in.Base.Text.{is_hex64, is_safe_id}
use zkdeal_cloud_deployer_in.Base.Json.{
  Fields, Json, as_int, dict, eq_str, get, has_exactly, null, num, put, scalar_text, str,
}
use zkdeal_cloud_deployer_in.Base.Decimal.{concat}
use zkdeal_cloud_deployer_in.Provider.Model.{
  Action, Key, Operation, Operations, Phase, Surroundings, committed, gets, named, ok, or_missing,
  prepared, preparing, provider_error, pure, require, save, text_or_none, unexpected, ◌>>=◌, ◌>>◌,
}
use zkdeal_cloud_deployer_in.Provider.Probes.{Config, verify_standby, verify_witness_failures, wall}
use zkdeal_cloud_deployer_in.Provider.Store.{find, key_eq, scalar_key, store}

pub record Driver : Type 0 where
  pub prepare : Json → Option String → (String → Action (Unit {0})) → Action Fields
  pub commit : String → Action Fields

-- `SAFE_ID.fullmatch(str(value))`
abbrev pub is_safe_scalar : Json → Bool
is_safe_scalar value = elim (scalar_text value) [ none ↦ false | some s ↦ is_safe_id s ]

-- `isinstance(value, int)`
abbrev pub is_int : Json → Bool
is_int value = elim (as_int value) [ none ↦ false | some _ ↦ true ]

-- `HEX64.fullmatch(str(value))`
abbrev pub is_hash_scalar : Json → Bool
is_hash_scalar value = elim (scalar_text value) [ none ↦ false | some s ↦ is_hex64 s ]

-- `response.get("operationId") == operation_id`
abbrev pub answers : Fields → Key → Bool
answers response k = elim (scalar_key (get response "operationId")) [
  | none ↦ false
  | some j ↦ key_eq j k
]

abbrev pub prepare_names : List String
prepare_names =
    "candidateId" ∷ "activeCoordinatorId" ∷ "standbyCoordinatorId" ∷ "failedWitnessCount" ∷ []

abbrev pub amended : Key → (Operation → Operation) → Option Operation → Operations → Operations
amended k change none l = l
amended k change (some operation) l = store k (change operation) l

-- A change of the stored entry, which the local name `operation` shares with the dictionary.
unfoldable pub amend : Key → (Operation → Operation) → Action (Unit {0})
amend k change w =
    (ok tt, record w { operations = amended k change (find k w.operations) w.operations })

-- A stored response is answered again; without one the operation runs.
unfoldable pub or_else : Option Fields → Action Fields → Action Fields
or_else (some response) rest = pure response
or_else none rest = rest

-- `operations[operation_id] = operation`
unfoldable pub insert : Key → Operation → Action (Unit {0})
insert k operation w = (ok tt, record w { operations = store k operation w.operations })

abbrev pub rto_seconds : ℕ → ℕ → ℕ
rto_seconds captured now = (now - captured + 999) / 1000

abbrev pub complete : Fields → ℕ → ℕ → Fields
complete response captured now =
    put
      (put (put response "rtoSeconds" (num (rto_seconds captured now))) "targetCapturedAtUnixMs"
        (num captured))
      "committedAtUnixMs" (num now)

abbrev pub is_prepared : Operation → Bool
is_prepared operation = elim operation.phase [
  | preparing ↦ false
  | prepared ↦ true
  | committed ↦ true
]

abbrev pub equals : Option String → String → Bool
equals none b = false
equals (some a) b = a == b

module _ (env : Surroundings) (config : Config) where
  -- `authenticate`, with Python's `compare_digest` of two texts as their equality
  unfoldable pub authenticate : Option String → Option String → Action (Unit {0})
  authenticate authorization approval = do
    require (matches authorization (concat ("Bearer " ∷ config.provider_token ∷ [])))
        (provider_error 401 "unauthorized")
    require (matches approval config.approval_token) (provider_error 403 "approval-required")
    where
      matches : Option String → String → Bool
      matches none expected = false
      matches (some given) expected = not (given == "") && given == expected

  module _ (driver : Driver) where
    -- The checks of `_prepare` before the dictionary is read.
    unfoldable pub check_prepare : String → Fields → Action Key
    check_prepare key request = do
      require (is_safe_id key) (provider_error 400 "invalid-idempotency-key")
      require (has_exactly request prepare_names) (provider_error 400 "invalid-request")
      require (is_safe_scalar (get request "candidateId")) (provider_error 400 "invalid-request")
      require
          (eq_str (get request "activeCoordinatorId") config.active_coordinator_id
            && eq_str (get request "standbyCoordinatorId") config.standby_coordinator_id)
          (provider_error 409 "topology-mismatch")
      require (is_int (get request "failedWitnessCount")) (provider_error 400 "invalid-request")
      or_missing (scalar_key (get request "candidateId")) (provider_error 400 "invalid-request")

    -- `checkpoint`
    unfoldable pub checkpoint : Key → String → Action (Unit {0})
    checkpoint id target = do
      now ← wall env
      amend id (λ o. record o { primary_target = some target; captured_at = some now })
      save

    abbrev pub begin : String → Fields → ℕ → Operation
    begin key request now = record {
      candidate_id = get request "candidateId";
      prepare_key = env.sha256 key;
      prepare_request = env.canonical_hash request;
      phase = preparing;
      created_at = now;
      primary_target = none;
      captured_at = none;
      prepare_response = none;
      prepare_response_hash = none;
      commit_key = none;
      commit_request = none;
      owner_response = none;
      commit_response = none;
      commit_response_hash = none;
      committed_at = none;
    }

    -- The part of `_prepare` that fences, captures and promotes.
    unfoldable pub run_prepare : Key → Fields → Action Fields
    run_prepare id request = do
      verify_witness_failures env config config.active_coordinator_id
          (get request "failedWitnessCount")
      verify_standby env config config.standby_coordinator_id
      found ← gets (λ w. find id w.operations)
      operation ← or_missing found unexpected
      response ← driver.prepare (get request "candidateId") operation.primary_target (checkpoint id)
      require (answers response id) (provider_error 503 "driver-contract-error")
      amend id (λ o. record o {
        prepare_response = some response;
        prepare_response_hash = some (env.canonical_hash response);
        phase = prepared;
      })
      save
      pure response

    unfoldable pub resume_prepare : String → Fields → Key → Operation → Action Fields
    resume_prepare key request id operation = do
      require
          (operation.prepare_key == env.sha256 key
            && operation.prepare_request == env.canonical_hash request)
          (provider_error 409 "idempotency-conflict")
      or_else operation.prepare_response (run_prepare id request)

    unfoldable pub begin_prepare : String → Fields → Key → Action Fields
    begin_prepare key request id = do
      now ← wall env
      insert id (begin key request now)
      save
      run_prepare id request

    unfoldable pub prepare_found : Option Operation → String → Fields → Key → Action Fields
    prepare_found none key request id = begin_prepare key request id
    prepare_found (some operation) key request id = resume_prepare key request id operation

    -- `_prepare`
    unfoldable pub prepare : String → Fields → Action Fields
    prepare key request = do
      id ← check_prepare key request
      found ← gets (λ w. find id w.operations)
      prepare_found found key request id

    -- The part of `_commit` that routes the writer and activates the signer.
    unfoldable pub run_commit : String → Action Fields
    run_commit operation_id = do
      answer ← driver.commit operation_id
      require (answers answer (named operation_id)) (provider_error 503 "driver-contract-error")
      now ← wall env
      found ← gets (λ w. find (named operation_id) w.operations)
      operation ← or_missing found unexpected
      captured ← or_missing operation.captured_at (provider_error 503 "checkpoint-missing")
      amend (named operation_id) (λ o. record o {
        commit_response = some (complete answer captured now);
        commit_response_hash = some (env.canonical_hash (complete answer captured now));
        phase = committed;
        committed_at = some now;
      })
      save
      pure (complete answer captured now)

    unfoldable pub begin_commit : String → String → Fields → Action Fields
    begin_commit operation_id key request = do
      amend (named operation_id) (λ o. record o {
        commit_key = some (env.sha256 key);
        commit_request = some (env.canonical_hash request);
        owner_response = some (get request "ownerResponseSha256");
      })
      save
      run_commit operation_id

    unfoldable pub resume_commit : String → String → Fields → Operation → Action Fields
    resume_commit operation_id key request operation = do
      require
          (equals operation.commit_key (env.sha256 key)
            && equals operation.commit_request (env.canonical_hash request))
          (provider_error 409 "idempotency-conflict")
      or_else operation.commit_response (run_commit operation_id)

    unfoldable pub commit_found :
        Option String → String → String → Fields → Operation → Action Fields
    commit_found none operation_id key request operation = begin_commit operation_id key request
    commit_found (some used) operation_id key request operation =
        resume_commit operation_id key request operation

    -- `_commit`
    unfoldable pub commit : String → String → Fields → Action Fields
    commit operation_id key request = do
      require (is_safe_id operation_id && is_safe_id key)
          (provider_error 400 "invalid-idempotency-key")
      require
          (has_exactly request ("ownerResponseSha256" ∷ [])
            && is_hash_scalar (get request "ownerResponseSha256"))
          (provider_error 400 "invalid-request")
      found ← gets (λ w. find (named operation_id) w.operations)
      operation ← or_missing found (provider_error 409 "not-prepared")
      require (is_prepared operation) (provider_error 409 "not-prepared")
      commit_found (text_or_none operation.commit_key) operation_id key request operation

  abbrev pub phase_text : Phase → Json
  phase_text preparing = str "PREPARING"
  phase_text prepared = str "PREPARED"
  phase_text committed = str "COMMITTED"

  abbrev pub moment : Option ℕ → Json
  moment none = null
  moment (some n) = num n

  -- `status`
  unfoldable pub status : String → Action Fields
  status operation_id = do
    require (is_safe_id operation_id) (provider_error 400 "invalid-request")
    found ← gets (λ w. find (named operation_id) w.operations)
    operation ← or_missing found (provider_error 404 "not-found")
    pure (
        dict (
          ("operationId", str operation_id)
          ∷ ("phase", phase_text operation.phase)
          ∷ ("createdAtUnixMs", num operation.created_at)
          ∷ ("targetCapturedAtUnixMs", moment operation.captured_at)
          ∷ ("committedAtUnixMs", moment operation.committed_at)
          ∷ (
            "rtoSeconds",
            elim operation.commit_response [
              | none ↦ null
              | some response ↦ get response "rtoSeconds"
            ],
          )
          ∷ []))
