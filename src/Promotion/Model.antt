-- ===== src/Promotion/Model.antt =====
-- scripts/promotion_controller.py: its configuration, its requests, and the monad of `run`. What the
-- controller asks of the network and the clock is answered from the history of what it has done so
-- far, the newest first.
use zkdeal_cloud_deployer_in.Base.{
  Bool, List, Option, String, if◌then◌else◌, leb, ltb, ℕ, ◌&&◌, ◌∷◌,
}
use zkdeal_cloud_deployer_in.Base.Json.{Fields, Json, obj}

pub record Config : Type 0 where
  pub active_health_urls : List String
  pub standby_health_url : String
  pub failover_provider_url : String
  pub promotion_endpoint : String
  pub active_coordinator_id : String
  pub standby_coordinator_id : String
  pub candidate_id : String
  pub provider_token : String
  pub approval_token : String
  pub principal_token : String
  pub failure_threshold : ℕ
  pub max_monitor_cycles : ℕ
  pub max_rto_seconds : ℕ
  pub max_checkpoint_age_seconds : ℕ
  pub armed : Bool

-- The `ControllerError`s, one for each place that raises one.
pub data Refusal : Type 0 where
  response_too_large http_status request_failed non_json not_object : Refusal
  operation_id_differs : Refusal
  not_proved : String → Refusal
  not_ready wrong_target_source signer_active_early invalid_lsn replay_behind stale_checkpoint :
      Refusal
  owner_not_active replication_missing : Refusal
  commit_differs : String → Refusal
  not_armed standby_not_ready rto_exceeded : Refusal

-- A `ControllerError`; a `ValueError`, which `json.loads` raises for bytes that are no text; and the
-- end of the model's fuel, which is no exception of the source.
pub data Fault : Type 0 where
  refused : Refusal → Fault
  value_error out_of_fuel : Fault

pub data Result {ℓ} (A : Type ℓ) : Type ℓ where
  ok : A → Result A
  err : Fault → Result A

pub data Method : Type 0 where
  get_method post_method : Method

pub record Request : Type 0 where
  pub url : String
  pub method : Method
  pub token : Option String
  pub idempotency_key : Option String
  pub approval_token : Option String
  pub body : Option Fields

pub data Body : Type 0 where
  json : Json → Body
  malformed undecodable : Body

pub data Reply : Type 0 where
  answered : ℕ → ℕ → Body → Reply
  failed : Reply

pub data Event : Type 0 where
  asked : Request → Event
  emitted : String → Fields → Event
  looked_at_clock slept : Event

abbrev pub History : Type 0
History = List Event

-- `monotonic` counts milliseconds, and `seconds` is the JSON number of so many of them.
pub record Surroundings : Type 0 where
  pub open_url : History → Request → Reply
  pub monotonic : History → ℕ
  pub seconds : ℕ → Json
  pub digest : Fields → String
  pub quote : String → String

abbrev pub Action {ℓ} : Type ℓ → Type ℓ
Action A = History → Result A × History

module _ {ℓ} {A : Type ℓ} where
  unfoldable pub pure : A → Action A
  pure a h = (ok a, h)

  unfoldable pub raise : Fault → Action A
  raise e h = (err e, h)

  unfoldable pub lift : Result A → Action A
  lift r h = (r, h)

unfoldable pub note : Event → Action (Unit {0})
note e h = (ok tt, e ∷ h)

infixl 5 ◌>>=◌ ◌>>◌
module _ {ℓ κ} {A : Type ℓ} {B : Type κ} where
  abbrev pub continue : Result A → (A → Action B) → Action B
  continue (ok a) f h = f a h
  continue (err e) f h = (err e, h)

  -- Opening this opens the actions above too.
  unfoldable pub ◌>>=◌ : Action A → (A → Action B) → Action B
  unfolding pure raise lift note
  ◌>>=◌ m f h = continue (m h).0 f (m h).1

abbrev pub ◌>>◌ {ℓ κ} : {A : Type ℓ} {B : Type κ} → Action A → Action B → Action B
m >> k = m >>= λ _. k

-- `if not test: raise ControllerError(…)`
abbrev pub check : Bool → Refusal → Result (Unit {0})
check test refusal = if test then ok tt else err (refused refusal)

-- A chain of checks.
abbrev pub after {ℓ} : {A : Type ℓ} → Result (Unit {0}) → Result A → Result A
after (ok u) rest = rest
after (err e) rest = err e

abbrev pub max_response_bytes : ℕ
max_response_bytes = 1_048_576

abbrev pub object_of : Body → Result Fields
object_of (json (obj fields)) = ok fields
object_of (json other) = err (refused not_object)
object_of malformed = err (refused non_json)
object_of undecodable = err value_error

-- What `request_json` makes of an answer.
unfoldable pub read_reply : Reply → Result Fields
read_reply failed = err (refused request_failed)
read_reply (answered status size body) =
    after (check (leb size max_response_bytes) response_too_large)
      (after (check (leb 200 status && ltb status 300) http_status) (object_of body))

-- `request_json`
unfoldable pub request_json : Surroundings → Request → Action Fields
request_json env request h = (read_reply (env.open_url h request), asked request ∷ h)

unfoldable pub monotonic : Surroundings → Action ℕ
monotonic env h = (ok (env.monotonic h), looked_at_clock ∷ h)

-- `emit`: the configuration's identities and the time go into every record.
unfoldable pub emit : String → Fields → Action (Unit {0})
emit status fields h = (ok tt, emitted status fields ∷ h)
