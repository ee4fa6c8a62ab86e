-- ===== src/Faults/Journal.antt =====
-- fault-control/fault_control.py, class `Journal`: a record of intent before each external effect, and
-- one of closure after it, each written once. The lock makes `execute` one step.
pub mod Keeps
pub mod WriteOnce
pub mod AtMostOnce
pub mod Completed
pub mod Replay
pub mod Duplicates
pub mod Progress
use zkdeal_cloud_deployer_in.Faults.Model.{
  Action, Content, Result, Surroundings, control_error, created, document, find, garbled,
  invalid_request, looked_at_clock, oversized, unexpected,
}
use zkdeal_cloud_deployer_in.Base.Machine.{gets, lift, or_raise, pure, require, ◌>>=◌, ◌>>◌}
use zkdeal_cloud_deployer_in.Base.{
  Bool, Option, String, [], false, if◌then◌else◌, leb, none, some, true, ◌&&◌, ◌*◌, ◌∷◌,
}
use zkdeal_cloud_deployer_in.Base.Json.{Fields, Json, dict, eq_str, get, lookup, num, obj, put, str}
use zkdeal_cloud_deployer_in.Base.Decimal.{concat}
use zkdeal_cloud_deployer_in.Base.Outcome.{err, ok, some_or}
use zkdeal_cloud_deployer_in.Faults.Documents.{as_fields, is_idempotency_key, is_operation_id}
use Prim.Native.String.{slice}

-- What a callback answers: the public and the private result.
abbrev pub Results : Type 0
Results = Fields × Fields

abbrev pub Callback : Type 0
Callback = String → Action Results

-- `result.update({…})` of the two functions that answer a record
abbrev pub answered_with : Fields → String → String → Json → Fields
answered_with public operation_id closure_digest correlation_id =
    put (put (put public "operationId" (str operation_id)) "closureSha256" (str closure_digest))
      "correlationId" correlation_id

-- `strict_object` of the bytes of a journal record
unfoldable pub parse_record : Content → Result Fields
parse_record (document fields) = ok fields
parse_record garbled = err invalid_request
parse_record oversized = err (control_error 413 "DOCUMENT_TOO_LARGE")

unfoldable pub read_found : Option Content → Result Fields
unfolding parse_record
read_found none = err (control_error 409 "INCOMPLETE_OPERATION")
read_found (some content) = parse_record content

-- `read_record`
unfoldable pub read_record : String → Action Fields
unfolding read_found
read_record name w = (read_found (find name w.files), w)

-- `closure["publicResult"]` and the like: a missing field raises a `KeyError`.
unfoldable pub member : Fields → String → Result Json
member value name = some_or (lookup value name) unexpected

-- `dict(…)` of a member
unfoldable pub fields_of : Result Json → Result Fields
fields_of (ok value) = as_fields value unexpected
fields_of (err fault) = err fault

abbrev pub public_result : Fields → Result Fields
public_result closure = fields_of (member closure "publicResult")

abbrev pub intent_name : String → String
intent_name key_hash = concat (key_hash ∷ ".intent.json" ∷ [])

abbrev pub closure_name : String → String
closure_name operation_id = concat (operation_id ∷ ".closure.json" ∷ [])

module _ (env : Surroundings) where
  unfoldable pub utc_now : Action String
  utc_now w = (ok (env.utc_now w.history), record w { history = looked_at_clock ∷ w.history })

  -- What `read_record` meets in a file that was written: a document up to `MAX_RESPONSE_BYTES`.
  unfoldable pub stored : Fields → Content
  stored value = if leb (env.canonical_size value) (1024 * 1024) then document value else oversized

  -- `open` with `O_EXCL`, the write and the flush: a file that is there is never written again.
  unfoldable pub create_if : Bool → Option Content → String → Fields → Action String
  create_if writable (some content) name value w = (err (control_error 409 "JOURNAL_CONFLICT"), w)
  create_if false none name value w = (err unexpected, w)
  create_if true none name value w = (
    ok (env.digest value),
    record { files = (name, stored value) ∷ w.files; history = created name ∷ w.history },
  )

  -- `durable_create`
  unfoldable pub durable_create : String → Fields → Action String
  unfolding create_if
  durable_create name value w =
      create_if (env.can_write w.history name) (find name w.files) name value w

  module _ (binding_digest : String) where
    unfoldable pub request_digest : String → Fields → String → String
    request_digest action body correlation_id = env.digest (
        dict (
          ("action", str action)
          ∷ ("bindingDigest", str binding_digest)
          ∷ ("body", obj body)
          ∷ ("correlationId", str correlation_id)
          ∷ []))

    -- `f"fc-{request_digest[:40]}"`
    abbrev pub operation_id_of : String → String
    operation_id_of digest = concat ("fc-" ∷ slice digest 0 40 ∷ [])

    abbrev pub intent_of : String → String → String → String → String → Fields
    intent_of action key digest correlation_id now = dict (
        ("schemaVersion", num 1)
        ∷ ("service", str "zkdeal-fault-control")
        ∷ ("operationId", str (operation_id_of digest))
        ∷ ("action", str action)
        ∷ ("bindingDigest", str binding_digest)
        ∷ ("idempotencyKeySha256", str (env.sha256 key))
        ∷ ("requestDigest", str digest)
        ∷ ("correlationId", str correlation_id)
        ∷ ("startedAt", str now)
        ∷ [])

    abbrev pub closure_of : String → String → String → Fields → String → Results → Fields
    closure_of action digest correlation_id intent now results = dict (
        ("schemaVersion", num 1)
        ∷ ("service", str "zkdeal-fault-control")
        ∷ ("operationId", str (operation_id_of digest))
        ∷ ("action", str action)
        ∷ ("bindingDigest", str binding_digest)
        ∷ ("requestDigest", str digest)
        ∷ ("correlationId", str correlation_id)
        ∷ ("intentSha256", str (env.digest intent))
        ∷ ("completedAt", str now)
        ∷ ("publicResult", obj results.0)
        ∷ ("privateResult", obj results.1)
        ∷ [])

    -- The record of closure as the answer to a repeated request.
    unfoldable pub replay_closure : String → Action (Fields × Bool)
    replay_closure operation_id = do
      closure ← read_record (closure_name operation_id)
      public ← lift (public_result closure)
      correlation_id ← lift (member closure "correlationId")
      pure (answered_with public operation_id (env.digest closure) correlation_id, true)

    -- An intent is there: its closure is answered, and nothing is done again.
    unfoldable pub replay : String → String → Action (Fields × Bool)
    replay key digest = do
      intent ← read_record (intent_name (env.sha256 key))
      require
          (eq_str (get intent "requestDigest") digest
            && eq_str (get intent "operationId") (operation_id_of digest))
          (control_error 409 "IDEMPOTENCY_CONFLICT")
      closed ← gets (λ w. find (closure_name (operation_id_of digest)) w.files)
      or_raise closed (control_error 409 "INCOMPLETE_OPERATION")
      replay_closure (operation_id_of digest)

    -- The effect and the closure, after the intent.
    unfoldable pub finish : String → String → String → Fields → Callback → Action (Fields × Bool)
    finish action digest correlation_id intent callback = do
      results ← callback (operation_id_of digest)
      completed ← utc_now
      closure_digest ←
          durable_create (closure_name (operation_id_of digest))
            (closure_of action digest correlation_id intent completed results)
      pure (
        answered_with results.0 (operation_id_of digest) closure_digest (str correlation_id),
        false,
      )

    unfoldable pub perform : String → String → String → String → Callback → Action (Fields × Bool)
    perform action key digest correlation_id callback = do
      started ← utc_now
      let intent = intent_of action key digest correlation_id started
      durable_create (intent_name (env.sha256 key)) intent
      finish action digest correlation_id intent callback

    unfoldable pub by_intent :
        Option Content → String → String → String → String → Callback → Action (Fields × Bool)
    by_intent (some content) action key digest correlation_id callback = replay key digest
    by_intent none action key digest correlation_id callback =
        perform action key digest correlation_id callback

    -- `Journal.execute`
    unfoldable pub execute : String → Fields → String → String → Callback → Action (Fields × Bool)
    execute action body key correlation_id callback = do
      require (is_idempotency_key key) invalid_request
      found ← gets (λ w. find (intent_name (env.sha256 key)) w.files)
      by_intent found action key (request_digest action body correlation_id) correlation_id callback

    -- `Journal.closure`
    unfoldable pub closure : String → Action Fields
    closure operation_id = do
      require (is_operation_id operation_id) invalid_request
      record_found ← read_record (closure_name operation_id)
      public ← lift (public_result record_found)
      correlation_id ← lift (member record_found "correlationId")
      action ← lift (member record_found "action")
      pure (
          put (answered_with public operation_id (env.digest record_found) correlation_id) "action"
            action)
