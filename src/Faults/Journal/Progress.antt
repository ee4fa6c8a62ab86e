-- ===== src/Faults/Journal/Progress.antt =====
-- fault-control/fault_control.py, `Journal.execute` where nothing stands in its way.
use zkdeal_cloud_deployer_in.Faults.Model.{
  Action, History, Surroundings, World, created, find, looked_at_clock,
}
use zkdeal_cloud_deployer_in.Base.Machine.{bind-ok, pure, ◌>>=◌}
use zkdeal_cloud_deployer_in.Faults.Journal.{
  Callback, Results, answered_with, by_intent, closure_name, closure_of, create_if, durable_create,
  execute, finish, intent_name, intent_of, operation_id_of, perform, request_digest, stored,
  utc_now,
}
use zkdeal_cloud_deployer_in.Base.{String, ap, false, none, refl, true, ◌==◌, ◌∙◌, ◌∷◌, ◌≡◌}
use zkdeal_cloud_deployer_in.Base.Outcome.{ok}
use zkdeal_cloud_deployer_in.Base.Json.{Fields, str}
use zkdeal_cloud_deployer_in.Faults.Documents.{is_idempotency_key}

-- An effect that returns results wherever it starts and leaves the files alone.
abbrev pub Succeeds : Action Results → Type 0
Succeeds m =
    (w : World)
    → (results : Results) × (history : History) × (m w
        ≡ (ok results, record w { history = history }))

module _ (env : Surroundings) (binding_digest : String) where
  durable_create-new :
      (name : String) (value : Fields) (w : World)
      → env.can_write w.history name ≡ true
      → find name w.files ≡ none
      → durable_create env name value w ≡ (
        ok (env.digest value),
        record { files = (name, stored env value) ∷ w.files; history = created name ∷ w.history },
      )
  unfolding durable_create create_if
  durable_create-new name value w writable fresh = rw (writable, fresh)

  module _
      (writable : (history : History) (name : String) → env.can_write history name ≡ true) where
    finish-Succeeds :
        (action digest correlation_id : String) (intent : Fields) (callback : Callback) (w : World)
        → ((operation_id : String) → Succeeds (callback operation_id))
        → find (closure_name (operation_id_of env binding_digest digest)) w.files ≡ none
        → (response : Fields) × ((finish env binding_digest action digest correlation_id intent
              callback w).0
            ≡ ok (response, false))
    unfolding finish utc_now pure
    finish-Succeeds action digest correlation_id intent callback w succeeds not_closed =
        let operation_id = operation_id_of env binding_digest digest in
        let (results, history, called) = succeeds operation_id w in
        let closed =
          closure_of env binding_digest action digest correlation_id intent (env.utc_now history)
            results in
        (
          answered_with results.0 operation_id (env.digest closed) (str correlation_id),
          ap (λ r. r.0)
              (bind-ok _ _ w (record w { history = history }) results called
                ∙ bind-ok (utc_now env) _ (record w { history = history })
                    (record w { history = looked_at_clock ∷ history }) (env.utc_now history) refl
                ∙ bind-ok _ _ _ _ _ (
                    durable_create-new (closure_name operation_id) closed
                      (record w { history = looked_at_clock ∷ history }) (writable _ _)
                      not_closed)),
        )

    perform-Succeeds :
        (action key digest correlation_id : String) (callback : Callback) (w : World)
        → ((operation_id : String) → Succeeds (callback operation_id))
        → find (intent_name (env.sha256 key)) w.files ≡ none
        → find (closure_name (operation_id_of env binding_digest digest)) w.files ≡ none
        → (intent_name (env.sha256 key) == closure_name (operation_id_of env binding_digest digest))
          ≡ false
        → (response : Fields) × ((perform env binding_digest action key digest correlation_id
              callback w).0
            ≡ ok (response, false))
    unfolding perform utc_now find
    perform-Succeeds action key digest correlation_id callback w succeeds new_key not_closed
          other_name =
        let intent =
          intent_of env binding_digest action key digest correlation_id (env.utc_now w.history) in
        let (response, finished) =
          finish-Succeeds action digest correlation_id intent callback
            (record {
              files = (intent_name (env.sha256 key), stored env intent) ∷ w.files;
              history = created (intent_name (env.sha256 key)) ∷ looked_at_clock ∷ w.history;
            })
            succeeds (rw (other_name) not_closed) in
        (
          response,
          ap (λ r. r.0)
                (bind-ok (utc_now env) _ w (record w { history = looked_at_clock ∷ w.history })
                    (env.utc_now w.history) refl
                  ∙ bind-ok _ _ _ _ _ (
                      durable_create-new (intent_name (env.sha256 key)) intent
                        (record w { history = looked_at_clock ∷ w.history }) (writable _ _)
                        new_key))
              ∙ finished,
        )

  -- With a valid key that is new, a disk that takes every file, an effect that always returns results and
  -- leaves the files alone, and an operation that is not closed and whose closure has another name than
  -- the intent, a call returns a new response.
  pub execute-Succeeds :
      (action : String) (body : Fields) (key correlation_id : String) (callback : Callback)
      (w : World)
      → is_idempotency_key key ≡ true
      → ((history : History) (name : String) → env.can_write history name ≡ true)
      → ((operation_id : String) → Succeeds (callback operation_id))
      → find (intent_name (env.sha256 key)) w.files ≡ none
      → find
          (closure_name (
            operation_id_of env binding_digest
              (request_digest env binding_digest action body correlation_id)))
          w.files
        ≡ none
      → (intent_name (env.sha256 key)
          == closure_name (
              operation_id_of env binding_digest
                (request_digest env binding_digest action body correlation_id)))
        ≡ false
      → (response : Fields) × ((execute env binding_digest action body key correlation_id callback
            w).0
          ≡ ok (response, false))
  unfolding execute by_intent ◌>>=◌
  execute-Succeeds action body key correlation_id callback w valid writable succeeds new_key
        not_closed other_name =
      let (response, performed) =
        perform-Succeeds writable action key
          (request_digest env binding_digest action body correlation_id) correlation_id callback w
          succeeds new_key not_closed other_name in
      (response, rw (valid, new_key) performed)
