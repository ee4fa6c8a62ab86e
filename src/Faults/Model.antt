-- ===== src/Faults/Model.antt =====
-- fault-control/fault_control.py: its faults, its files and what it asks of its surroundings. A file is
-- known by the document that its bytes hold, since `strict_object` reads back what `canonical_bytes`
-- wrote, up to its bound of 1 MiB; bytes that the service did not write may be no document at all. The
-- surroundings answer from the history of all that
-- was asked before, the newest first.
use zkdeal_cloud_deployer_in.Base.{
  Bool, List, Option, String, [], if◌then◌else◌, none, some, ℕ, ◌==◌, ◌∷◌,
}
use zkdeal_cloud_deployer_in.Base.Json.{Fields}
use zkdeal_cloud_deployer_in.Base.Outcome.{Outcome}
use zkdeal_cloud_deployer_in.Base.Machine

-- `ControlError` with its status and code, or any other exception
pub data Fault : Type 0 where
  control_error : ℕ → String → Fault
  unexpected : Fault

-- What a regular file holds. `oversized` is beyond the bound of `strict_object`.
pub data Content : Type 0 where
  document : Fields → Content
  garbled oversized : Content

abbrev pub Files : Type 0
Files = List (String × Content)

pub record HttpRequest : Type 0 where
  pub url : String
  pub method : String
  pub body : Option Fields
  pub token : Option String

-- The bytes of a reply: none, a strict JSON object, or anything else.
pub data Payload : Type 0 where
  empty_body not_strict : Payload
  object : Fields → Payload

-- A status, the number of bytes, their digest, and what they are.
pub data HttpReply : Type 0 where
  replied : ℕ → ℕ → String → Payload → HttpReply
  unreachable : HttpReply

pub record DockerRequest : Type 0 where
  pub path : String
  pub body : Option Fields

-- A status and the number of bytes, or an `OSError`.
pub data DockerReply : Type 0 where
  answered : ℕ → ℕ → DockerReply
  socket_error : DockerReply

pub data Event : Type 0 where
  sent : HttpRequest → Event
  docker_asked : DockerRequest → Event
  created : String → Event
  looked_at_clock : Event

abbrev pub History : Type 0
History = List Event

-- `digest` is the SHA-256 of the canonical bytes of a document, `canonical_size` their number, and `sha256`
-- the SHA-256 of a text. `can_write` says whether the disk takes a new file.
pub record Surroundings : Type 0 where
  pub send : History → HttpRequest → HttpReply
  pub docker : History → DockerRequest → DockerReply
  pub can_write : History → String → Bool
  pub utc_now : History → String
  pub sha256 : String → String
  pub digest : Fields → String
  pub canonical_size : Fields → ℕ
  pub quote : String → String

pub record World : Type 0 where
  pub files : Files
  pub history : History

abbrev pub Action : Type 0 → Type 0
Action A = Machine.Action Fault World A

abbrev pub Result : Type 0 → Type 0
Result A = Outcome Fault A

-- `ControlError(message)` with its default status and code
abbrev pub invalid_request : Fault
invalid_request = control_error 400 "INVALID_REQUEST"

abbrev pub configuration_error : Fault
configuration_error = control_error 503 "CONFIGURATION_ERROR"

unfoldable pub find : String → Files → Option Content
find name [] = none
find name ((other, content) ∷ rest) = if other == name then some content else find name rest
