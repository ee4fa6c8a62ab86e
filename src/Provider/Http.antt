-- ===== src/Provider/Http.antt =====
-- failover-provider/provider.py, `Handler`: routing, authentication and the answers to errors.
use Prim.Native.String.{len, slice}
use zkdeal_cloud_deployer_in.Base.{
  Option, String, [], if◌then◌else◌, ltb, none, not, some, true, ℕ, ◌&&◌, ◌-◌, ◌==◌, ◌||◌, ◌∷◌,
}
use zkdeal_cloud_deployer_in.Base.Text.{is_safe_id}
use zkdeal_cloud_deployer_in.Base.Json.{Fields, Json, bool, dict, end, field, num, obj, str}
use zkdeal_cloud_deployer_in.Base.Decimal.{concat}
use zkdeal_cloud_deployer_in.Provider.Model.{
  Action, Result, Surroundings, World, err, ok, or_missing, provider_error, pure, raise, require,
  value_error, ◌>>=◌, ◌>>◌,
}
use zkdeal_cloud_deployer_in.Provider.Probes.{Config, max_body_bytes}
use zkdeal_cloud_deployer_in.Provider.Operations.{Driver, authenticate, commit, prepare, status}

-- What the handler reads of a request. `content_length` is absent if `int` refuses the header, and
-- `body` is absent if it is no JSON.
pub record Request : Type 0 where
  pub path : String
  pub content_length : Option ℕ
  pub content_type : String
  pub authorization : Option String
  pub approval : Option String
  pub idempotency_key : String
  pub body : Option Json

abbrev pub Response : Type 0
Response = ℕ × Fields

-- The identifier between a fixed beginning and a fixed end of the path, if it is a safe one.
unfoldable pub identifier_between : String → String → String → Option String
identifier_between first last path =
    let identifier = slice path (len first) (len path - len last) in
    if concat (first ∷ identifier ∷ last ∷ []) == path && is_safe_id identifier
    then some identifier
    else none

abbrev pub error_body : String → Fields
error_body error_code = field "code" (str error_code) end

-- The `except` clauses of `do_POST`.
abbrev pub post_answer : Result Fields → Response
post_answer (ok response) = (200, response)
post_answer (err (provider_error status error_code)) = (status, error_body error_code)
post_answer (err value_error) = (400, error_body "invalid-json")
post_answer (err other) = (500, error_body "internal-error")

abbrev pub body_object : Option Json → Action Fields
body_object none = raise value_error
body_object (some (obj fields)) = pure fields
body_object (some other) = raise (provider_error 400 "invalid-body")

module _ (env : Surroundings) (config : Config) (driver : Driver) where
  unfoldable pub route_post : Request → Fields → Action Fields
  route_post request value =
      if request.path == "/v1/failovers"
      then prepare env config driver request.idempotency_key value
      else (do
        operation_id ←
            or_missing (identifier_between "/v1/failovers/" "/commit" request.path)
              (provider_error 404 "not-found")
        commit env config driver operation_id request.idempotency_key value)

  unfoldable pub handle_post : Request → Action Fields
  handle_post request = do
    length ← or_missing request.content_length value_error
    require (not (ltb length 2 || ltb max_body_bytes length)) (provider_error 400 "invalid-body")
    require (request.content_type == "application/json") (provider_error 400 "invalid-content-type")
    value ← body_object request.body
    authenticate env config request.authorization request.approval
    route_post request value

  -- `do_POST`
  unfoldable pub do_post : Request → World → Response × World
  do_post request w = let (r, w') = handle_post request w in (post_answer r, w')

  unfoldable pub status_answer : Result Fields → Response
  status_answer (err (provider_error status error_code)) = (status, error_body error_code)
  status_answer (err other) = (500, end)
  status_answer (ok response) = (200, response)

  -- `do_GET`
  unfoldable pub do_get : Request → World → Response × World
  unfolding status_answer
  do_get request w =
      if request.path == "/health"
      then ((200, dict (("status", str "ok") ∷ ("platform", str config.platform) ∷ [])), w)
      else if request.path == "/ready"
      then ((200, dict (("ready", bool true) ∷ ("stateDurable", bool true) ∷ [])), w)
      else if request.path == "/capabilities"
      then (
        (
          200,
          dict (
              ("schemaVersion", num 1)
              ∷ ("contract", str "failover-provider-v1")
              ∷ ("platform", str config.platform)
              ∷ ("witnessIndependence", str "dns-address-disjoint-and-provider-rechecked")
              ∷ ("durableIdempotency", bool true)
              ∷ ("measuredRtoSeconds", bool true)
              ∷ []),
        ),
        w,
      )
      else elim (identifier_between "/v1/failovers/" "" request.path) [
        | none ↦ ((404, error_body "not-found"), w)
        | some operation_id ↦
            let (r, w') =
              (authenticate env config request.authorization request.approval
                  >> status env config operation_id)
                w in
            (status_answer r, w')
      ]
