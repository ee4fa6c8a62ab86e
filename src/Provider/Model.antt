-- ===== src/Provider/Model.antt =====
-- failover-provider/provider.py: the durable operations, what the provider asks of its surroundings,
-- and the monad of its methods. A method changes the operations in place and may raise, and what it
-- wrote before a raise stays written. The surroundings (the platform's command line, the services
-- it probes, the clocks) are one value that answers each question from the history of questions
-- asked so far, the newest first; so the history also shows in which order things were done.
use zkdeal_cloud_deployer_in.Base.{
  Bool, List, Option, String, false, if◌then◌else◌, none, some, true, ℕ, ◌==◌, ◌∷◌,
}
use zkdeal_cloud_deployer_in.Base.Json.{Fields, Json, ℤ}

-- The fixed commands of the two drivers.
pub data Command : Type 0 where
  ps inspect stop start disconnect promote : String → Command
  connect psql : String → String → Command
  scale : String → String → ℕ → Command
  get_object kube_promote : String → Command
  kube_psql : String → String → Command
  patch : String → Fields → Command

pub data Phase : Type 0 where
  preparing prepared committed : Phase

-- An entry of `state["operations"]`. A field that the source sets later is an `Option`.
pub record Operation : Type 0 where
  pub candidate_id : Json
  pub prepare_key : String
  pub prepare_request : String
  pub phase : Phase
  pub created_at : ℕ
  pub primary_target : Option String
  pub captured_at : Option ℕ
  pub prepare_response : Option Fields
  pub prepare_response_hash : Option String
  pub commit_key : Option String
  pub commit_request : Option String
  pub owner_response : Option Json
  pub commit_response : Option Fields
  pub commit_response_hash : Option String
  pub committed_at : Option ℕ

-- A key of the operations dictionary: a candidate that a request gives as a number is another key
-- than the same digits as a text.
pub data Key : Type 0 where
  named numbered : String → Key

abbrev pub Operations : Type 0
Operations = List (Key × Operation)

pub data Event : Type 0 where
  ran : Command → Event
  fetched resolved : String → Event
  looked_at_clock slept looked_at_date : Event
  saved : Operations → Event

abbrev pub History : Type 0
History = List Event

-- `subprocess.run`: the process ends, or its time runs out, which raises.
pub data Completed : Type 0 where
  finished : Bool → String → Completed
  timed_out : Completed

-- `urlopen`: status, size of the body, and the body if it is JSON; or no answer.
pub data Reply : Type 0 where
  answered : ℕ → ℕ → Option Json → Reply
  unreachable : Reply

-- `ProviderError(status, code, …)`, a `ValueError`, any other exception. `out_of_fuel` stands for a
-- loop of the model that was given too few rounds, and is no exception of the source.
pub data Fault : Type 0 where
  provider_error : ℕ → String → Fault
  value_error unexpected out_of_fuel : Fault

pub data Result {ℓ} (A : Type ℓ) : Type ℓ where
  ok : A → Result A
  err : Fault → Result A

-- `finished success output`: `success` says that the return code is 0, and `output` is the stripped
-- standard output. `monotonic` counts milliseconds, `wall` is `int(time.time() * 1000)`;
-- `int_of` is Python's `int`.
pub record Surroundings : Type 0 where
  pub run : History → List String → Completed
  pub open_url : History → String → Reply
  pub resolve : History → String → Option (List String)
  pub monotonic : History → ℕ
  pub wall : History → ℕ
  pub splitlines : String → List String
  pub parse_json : String → Option Json
  pub dumps : Fields → String
  pub int_of : Json → Result ℤ
  pub sha256 : String → String
  pub canonical_hash : Fields → String

pub record World : Type 0 where
  pub operations : Operations
  pub history : History

abbrev pub Action {ℓ} : Type ℓ → Type ℓ
Action A = World → Result A × World

module _ {ℓ} {A : Type ℓ} where
  unfoldable pub pure : A → Action A
  pure a w = (ok a, w)

  unfoldable pub raise : Fault → Action A
  raise e w = (err e, w)

  unfoldable pub gets : (World → A) → Action A
  gets f w = (ok (f w), w)

  unfoldable pub or_missing : Option A → Fault → Action A
  or_missing none fault w = (err fault, w)
  or_missing (some a) fault w = (ok a, w)

-- `if not test: raise …`
unfoldable pub require : Bool → Fault → Action (Unit {0})
require test fault w = (if test then ok tt else err fault, w)

unfoldable pub note : Event → Action (Unit {0})
note e w = (ok tt, record w { history = e ∷ w.history })

-- `self.save()`
unfoldable pub save : Action (Unit {0})
save w = (ok tt, record w { history = saved w.operations ∷ w.history })

-- `if test: …`
unfoldable pub when : Bool → Action (Unit {0}) → Action (Unit {0})
when true m w = m w
when false m w = (ok tt, w)

infixl 5 ◌>>=◌ ◌>>◌
module _ {ℓ κ} {A : Type ℓ} {B : Type κ} where
  abbrev pub continue : Result A → (A → Action B) → Action B
  continue (ok a) f w = f a w
  continue (err e) f w = (err e, w)

  -- Opening this opens the actions above too.
  unfoldable pub ◌>>=◌ : Action A → (A → Action B) → Action B
  unfolding pure raise gets or_missing require note save when
  ◌>>=◌ m f w = continue (m w).0 f (m w).1

abbrev pub ◌>>◌ {ℓ κ} : {A : Type ℓ} {B : Type κ} → Action A → Action B → Action B
m >> k = m >>= λ _. k

-- The result of an action is not used.
abbrev pub drop {ℓ} : {A : Type ℓ} → Action A → Action (Unit {0})
drop m = m >>= λ _. pure tt

-- `if operation.get(name)` of a text: absent and empty are the same.
abbrev pub text_or_none : Option String → Option String
text_or_none none = none
text_or_none (some t) = if t == "" then none else some t
