-- ===== src/Faults/Http/Unauthorized.antt =====
-- fault-control/fault_control.py, class `Handler`: a request without the bearer token.
use zkdeal_cloud_deployer_in.Faults.Model.{Action, Fault, Surroundings, World, control_error}
use zkdeal_cloud_deployer_in.Base.Machine.{◌>>=◌}
use zkdeal_cloud_deployer_in.Base.Lists.{contains}
use zkdeal_cloud_deployer_in.Base.{
  Bool, Bool-cases, Option, String, ap, arith, false, if◌then◌else◌, inl, inr, not, true, ℕ, ◌&&◌,
  ◌*◌, ◌==◌, ◌∙◌, ◌≡◌, ◌≤◌,
}
use zkdeal_cloud_deployer_in.Base.Json.{Fields}
use zkdeal_cloud_deployer_in.Base.Outcome.{err}
use zkdeal_cloud_deployer_in.Faults.Controller.{Controller, authenticate, supplied_token}
use zkdeal_cloud_deployer_in.Faults.Http.{
  Post, do_post, error_body, handle_error, handle_post, routes, send_json, to_answer,
}

module _ (env : Surroundings) (controller : Controller)
    (load_run : Fields → String → String → Action (Fields × Bool)) where
  -- Whether `authenticate` lets a header pass.
  abbrev pub is_authorized : Option String → Bool
  is_authorized authorization =
      not (supplied_token authorization == "")
      && env.sha256 controller.scoped_token == env.sha256 (supplied_token authorization)

  abbrev pub refusal : Bool → Fault
  refusal known_route =
      if known_route then control_error 401 "UNAUTHORIZED" else control_error 404 "NOT_FOUND"

  handle_post_refused :
      (post : Post) (w : World)
      → is_authorized post.authorization ≡ false
      → handle_post env controller load_run post w ≡ (err (refusal (contains routes post.path)), w)
  unfolding handle_post authenticate ◌>>=◌
  handle_post_refused post w wrong = elim (Bool-cases (contains routes post.path)) [
    | inl known ↦ rw (known, wrong)
    | inr other ↦ rw (other)
  ]

  send_json-small :
      (status : ℕ) (value : Fields)
      → env.canonical_size value ≤ 1024 * 1024
      → (send_json env controller load_run status value false).status ≡ status
  unfolding send_json
  send_json-small status value small = ground arith

  refusal-status :
      (known_route : Bool)
      → env.canonical_size (error_body "UNAUTHORIZED") ≤ 1024 * 1024
      → env.canonical_size (error_body "NOT_FOUND") ≤ 1024 * 1024
      → (handle_error env controller load_run (refusal known_route)).status
        ≡ (if known_route then 401 else 404)
  unfolding handle_error
  refusal-status true small small' = send_json-small 401 (error_body "UNAUTHORIZED") small
  refusal-status false small small' = send_json-small 404 (error_body "NOT_FOUND") small'

  -- A POST without the controller's bearer token changes nothing and asks nothing of anyone; it is
  -- answered 401 on a route of the service and 404 on others, where the bodies of these two errors are
  -- within the bound on answers.
  pub do_post_unauthorized :
      (post : Post) (w : World)
      → is_authorized post.authorization ≡ false
      → env.canonical_size (error_body "UNAUTHORIZED") ≤ 1024 * 1024
      → env.canonical_size (error_body "NOT_FOUND") ≤ 1024 * 1024
      → ((do_post env controller load_run post w).1 ≡ w)
        × ((do_post env controller load_run post w).0.status
            ≡ (if contains routes post.path then 401 else 404))
  unfolding do_post to_answer
  do_post_unauthorized post w wrong small small' =
      let refused = handle_post_refused post w wrong in
      (
        ap (λ r. (to_answer env controller load_run r).1) refused,
        ap (λ r. (to_answer env controller load_run r).0.status) refused
            ∙ refusal-status (contains routes post.path) small small',
      )
