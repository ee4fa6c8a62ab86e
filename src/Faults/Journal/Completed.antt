-- ===== src/Faults/Journal/Completed.antt =====
-- fault-control/fault_control.py, `Journal.execute`: what a call leaves that returned a new response.
use zkdeal_cloud_deployer_in.Faults.Model.{Content, Surroundings, World, find, invalid_request}
use zkdeal_cloud_deployer_in.Faults.Journal.{
  Callback, Results, answered_with, by_intent, closure_name, closure_of, execute, finish,
  intent_name, intent_of, operation_id_of, perform, replay, replay_closure, request_digest, stored,
}
use zkdeal_cloud_deployer_in.Base.Machine.Ensures.{Ensures, ensures_rules}
use zkdeal_cloud_deployer_in.Base.{
  Bool, Option, String, ap, false, false-ne-true, none, some, subst, sym, true, ◌∙◌, ◌≡◌,
}
use zkdeal_cloud_deployer_in.Base.Json.{Fields, str}
use zkdeal_cloud_deployer_in.Base.Machine.{bind-Passed, pure, require_cases, ◌>>=◌}
use zkdeal_cloud_deployer_in.Base.Outcome.{err-ne-ok, ok, ok_injective}
use zkdeal_cloud_deployer_in.Faults.Journal.WriteOnce.{
  Extends-refl, WritesOnce, durable_create-Created, finish-WritesOnce,
}
use zkdeal_cloud_deployer_in.Faults.Documents.{is_idempotency_key}

module _ (env : Surroundings) (binding_digest : String) where
  replay-Ensures :
      (key digest : String) → Ensures (λ r. r.1 ≡ true) (replay env binding_digest key digest)
  unfolding replay replay_closure
  replay-Ensures key digest = search ensures_rules depth 20

  -- What the effect and the closure leave when they answer.
  pub record Finished (action digest correlation_id : String) (intent : Fields) (after : World)
      (response : Fields) : Type 0 where
    pub finished : String
    pub results : Results
    pub closure_found :
        find (closure_name (operation_id_of env binding_digest digest)) after.files
        ≡ some (
            stored env
              (closure_of env binding_digest action digest correlation_id intent finished results))
    pub answer :
        response
        ≡ answered_with results.0
            (operation_id_of env binding_digest digest)
            (env.digest
              (closure_of env binding_digest action digest correlation_id intent finished results))
            (str correlation_id)

  finish-Finished :
      (action digest correlation_id : String) (intent : Fields) (callback : Callback) (w : World)
      (response : Fields) (replayed : Bool)
      → (finish env binding_digest action digest correlation_id intent callback w).0
        ≡ ok (response, replayed)
      → Finished action digest correlation_id intent
          (finish env binding_digest action digest correlation_id intent callback w).1
          response
  unfolding finish pure
  finish-Finished action digest correlation_id intent callback w response replayed h =
      let called = bind-Passed _ _ w _ h in
      let timed = bind-Passed _ _ _ _ called.second in
      let closed = bind-Passed _ _ _ _ timed.second in
      let after = called.world ∙ timed.world ∙ closed.world in
      let operation_id = operation_id_of env binding_digest digest in
      let closed_document =
        closure_of env binding_digest action digest correlation_id intent timed.value
          called.value in
      let (fresh, same_digest, found) =
        durable_create-Created env _ _ _ closed.value closed.first in
      record {
        finished = timed.value;
        results = called.value;
        closure_found =
            subst
              (λ v. find (closure_name operation_id) v.files ≡ some (stored env closed_document))
              (sym (ap (λ r. r.1) after)) found;
        answer =
            sym (ap (λ r. r.0) (ok_injective closed.second))
            ∙ ap (λ d. answered_with called.value.0 operation_id d (str correlation_id))
                same_digest;
      }

  -- What a call leaves that returned a new answer.
  pub record Completed (action : String) (body : Fields) (key correlation_id : String)
      (after : World) (response : Fields) : Type 0 where
    pub started : String
    pub valid_key : is_idempotency_key key ≡ true
    pub intent_found :
        find (intent_name (env.sha256 key)) after.files
        ≡ some (
            stored env (
              intent_of env binding_digest action key
                (request_digest env binding_digest action body correlation_id)
                correlation_id
                started))
    pub outcome :
        Finished action
          (request_digest env binding_digest action body correlation_id)
          correlation_id
          (intent_of env binding_digest action key
            (request_digest env binding_digest action body correlation_id)
            correlation_id
            started)
          after
          response

  perform-Completed :
      (action : String) (body : Fields) (key correlation_id : String) (callback : Callback)
      (w : World) (response : Fields) (replayed : Bool)
      → ((operation_id : String) → WritesOnce (callback operation_id))
      → is_idempotency_key key ≡ true
      → (perform env binding_digest action key
          (request_digest env binding_digest action body correlation_id)
          correlation_id
          callback
          w).0
        ≡ ok (response, replayed)
      → Completed action body key correlation_id
          (perform env binding_digest action key
            (request_digest env binding_digest action body correlation_id)
            correlation_id
            callback
            w).1
          response
  unfolding perform
  perform-Completed action body key correlation_id callback w response replayed once valid h =
      let digest = request_digest env binding_digest action body correlation_id in
      let timed = bind-Passed _ _ w _ h in
      let intent = intent_of env binding_digest action key digest correlation_id timed.value in
      let written = bind-Passed _ _ _ _ timed.second in
      let after = ap (λ r. r.1) (timed.world ∙ written.world) in
      let (fresh, same_digest, found) =
        durable_create-Created env _ _ _ written.value written.first in
      record {
        started = timed.value;
        valid_key = valid;
        intent_found =
            subst (λ v. find (intent_name (env.sha256 key)) v.files ≡ some (stored env intent))
              (sym after)
              ((finish-WritesOnce env binding_digest callback once action digest correlation_id
                  intent _).at
                _ (Extends-refl _) (intent_name (env.sha256 key)) (stored env intent) found);
        outcome =
            subst (λ v. Finished action digest correlation_id intent v response) (sym after)
              (finish-Finished action digest correlation_id intent callback _ response replayed
                written.second);
      }

  by_intent-Completed :
      (found : Option Content) (action : String) (body : Fields) (key correlation_id : String)
      (callback : Callback) (w : World) (response : Fields)
      → ((operation_id : String) → WritesOnce (callback operation_id))
      → is_idempotency_key key ≡ true
      → (by_intent env binding_digest found action key
          (request_digest env binding_digest action body correlation_id)
          correlation_id
          callback
          w).0
        ≡ ok (response, false)
      → Completed action body key correlation_id
          (by_intent env binding_digest found action key
            (request_digest env binding_digest action body correlation_id)
            correlation_id
            callback
            w).1
          response
  unfolding by_intent
  by_intent-Completed (some content) action body key correlation_id callback w response once valid
        h =
      absurd (false-ne-true ((replay-Ensures key _).at w _ h))
  by_intent-Completed none action body key correlation_id callback w response once valid h =
      perform-Completed action body key correlation_id callback w response false once valid h

  pub execute-Completed :
      (action : String) (body : Fields) (key correlation_id : String) (callback : Callback)
      (w : World) (response : Fields)
      → ((operation_id : String) → WritesOnce (callback operation_id))
      → (execute env binding_digest action body key correlation_id callback w).0
        ≡ ok (response, false)
      → Completed action body key correlation_id
          (execute env binding_digest action body key correlation_id callback w).1
          response
  unfolding execute ◌>>=◌
  execute-Completed action body key correlation_id callback w response once h =
      require_cases (is_idempotency_key key) invalid_request _ w
        (λ r. r.0 ≡ ok (response, false) → Completed action body key correlation_id r.1 response)
        (λ stopped. absurd (err-ne-ok stopped))
        (λ valid.
          by_intent-Completed (find (intent_name (env.sha256 key)) w.files) action body key
            correlation_id callback w response once valid)
        h
