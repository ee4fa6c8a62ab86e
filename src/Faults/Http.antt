-- ===== src/Faults/Http.antt =====
-- fault-control/fault_control.py, class `Handler`: what it answers to a POST, and to a GET for an
-- operation. The messages of errors are left out, also of the size of an answer. `load_run` is what
-- `execute` does for the route `load`, which is not modelled.
pub mod Unauthorized
use Prim.Native.String.{len, slice}
use zkdeal_cloud_deployer_in.Faults.Model.{
  Action, Fault, Payload, Result, Surroundings, World, control_error, empty_body, invalid_request,
  not_strict, object, unexpected,
}
use zkdeal_cloud_deployer_in.Base.Machine.{lift, or_raise, pure, require, ◌>>=◌, ◌>>◌}
use zkdeal_cloud_deployer_in.Base.Lists.{contains}
use zkdeal_cloud_deployer_in.Base.{
  Bool, List, Option, String, [], false, if◌then◌else◌, leb, ltb, none, not, some, ℕ, ◌&&◌, ◌*◌,
  ◌==◌, ◌∷◌,
}
use zkdeal_cloud_deployer_in.Base.Json.{Fields, dict, negsuc, obj, pos, str, ℤ}
use zkdeal_cloud_deployer_in.Base.Outcome.{Outcome, check, err, ok}
use zkdeal_cloud_deployer_in.Faults.Documents.{is_operation_id}
use zkdeal_cloud_deployer_in.Faults.Journal.{closure}
use zkdeal_cloud_deployer_in.Faults.Controller.{Controller, authenticate, execute_fault, receipt}

-- The headers that are read and the body. The length is missing where it is no integer; where the header
-- is missing it is -1.
pub record Post : Type 0 where
  pub path : String
  pub authorization : Option String
  pub idempotency_key : Option String
  pub correlation_id : Option String
  pub chunked : Bool
  pub content_length : Option ℤ
  pub content_type : String
  pub payload : Payload

pub record Answer : Type 0 where
  pub status : ℕ
  pub body : Fields
  pub replayed : Bool

abbrev pub error_body : String → Fields
error_body code = dict (("error", obj (dict (("code", str code) ∷ []))) ∷ [])

abbrev pub routes : List String
routes = "/v1/faults" ∷ "/v1/load-runs" ∷ []

abbrev pub header_or_empty : Option String → String
header_or_empty none = ""
header_or_empty (some value) = value

unfoldable pub length_allowed : Option ℤ → Result (Unit {0})
length_allowed none = err (control_error 411 "CONTENT_LENGTH_REQUIRED")
length_allowed (some (negsuc n)) = err (control_error 413 "DOCUMENT_TOO_LARGE")
length_allowed (some (pos n)) = check (leb n (64 * 1024)) (control_error 413 "DOCUMENT_TOO_LARGE")

-- `strict_object` of the bytes that were read
unfoldable pub strict_payload : Payload → Result Fields
strict_payload empty_body = err invalid_request
strict_payload not_strict = err invalid_request
strict_payload (object fields) = ok fields

-- `body`
unfoldable pub read_body : Post → Action Fields
unfolding length_allowed strict_payload
read_body post = do
  require (not post.chunked) (control_error 411 "CONTENT_LENGTH_REQUIRED")
  lift (length_allowed post.content_length)
  require (post.content_type == "application/json") (control_error 415 "UNSUPPORTED_MEDIA_TYPE")
  lift (strict_payload post.payload)

-- `/v1/(?:faults|load-runs)/(fc-[0-9a-f]{40})`
unfoldable pub operation_in : String → Option String
unfolding is_operation_id
operation_in path =
    let faults = slice path 11 (len path) in
    let loads = slice path 14 (len path) in
    if slice path 0 11 == "/v1/faults/" && is_operation_id faults
    then some faults
    else if slice path 0 14 == "/v1/load-runs/" && is_operation_id loads
    then some loads
    else none

module _ (env : Surroundings) (controller : Controller)
    (load_run : Fields → String → String → Action (Fields × Bool)) where
  -- `send_json`
  unfoldable pub send_json : ℕ → Fields → Bool → Answer
  send_json status value replayed =
      if ltb (1024 * 1024) (env.canonical_size value)
      then (record { status = 500; body = error_body "RESPONSE_TOO_LARGE"; replayed = replayed })
      else (record { status = status; body = value; replayed = replayed })

  -- `handle_error`
  unfoldable pub handle_error : Fault → Answer
  unfolding send_json
  handle_error (control_error status code) = send_json status (error_body code) false
  handle_error unexpected = send_json 500 (error_body "INTERNAL_ERROR") false

  unfoldable pub to_answer : Outcome Fault (Fields × Bool) × World → Answer × World
  unfolding send_json handle_error
  to_answer (ok (result, replayed), w) = (send_json 200 result replayed, w)
  to_answer (err fault, w) = (handle_error fault, w)

  unfoldable pub handle_post : Post → Action (Fields × Bool)
  handle_post post = do
    require (contains routes post.path) (control_error 404 "NOT_FOUND")
    authenticate env controller post.authorization
    body ← read_body post
    let key = header_or_empty post.idempotency_key
    let correlation_id = header_or_empty post.correlation_id
    if post.path == "/v1/faults"
        then execute_fault env controller body key correlation_id
        else load_run body key correlation_id

  -- `do_POST`
  unfoldable pub do_post : Post → World → Answer × World
  do_post post w = to_answer (handle_post post w)

  unfoldable pub handle_get : String → Option String → Action (Fields × Bool)
  unfolding operation_in
  handle_get path authorization = do
    operation_id ← or_raise (operation_in path) (control_error 404 "NOT_FOUND")
    authenticate env controller authorization
    found ← closure env controller.binding_digest operation_id
    pure (receipt env controller found, false)

  -- `do_GET` for a path without query and fragment that is not one of the three fixed ones
  unfoldable pub do_get : String → Option String → World → Answer × World
  do_get path authorization w = to_answer (handle_get path authorization w)
