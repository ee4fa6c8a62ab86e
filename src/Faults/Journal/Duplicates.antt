-- ===== src/Faults/Journal/Duplicates.antt =====
-- fault-control/fault_control.py, `Journal.execute`: one request under two idempotency keys.
use zkdeal_cloud_deployer_in.Faults.Model.{Content, Surroundings, World, find, invalid_request}
use zkdeal_cloud_deployer_in.Base.Machine.{bind-Passed, require_cases, ◌>>=◌}
use zkdeal_cloud_deployer_in.Faults.Journal.{
  Callback, by_intent, closure_name, execute, finish, intent_name, operation_id_of, perform,
  request_digest,
}
use zkdeal_cloud_deployer_in.Faults.Journal.WriteOnce.{
  Extends-refl, WritesOnce, durable_create-Taken, durable_create-WritesOnce, utc_now-WritesOnce,
}
use zkdeal_cloud_deployer_in.Base.Outcome.{err-ne-ok, ok}
use zkdeal_cloud_deployer_in.Base.{Bool, String, none, some, subst, sym, ◌≡◌, ◌≢◌}
use zkdeal_cloud_deployer_in.Base.Json.{Fields}
use zkdeal_cloud_deployer_in.Faults.Documents.{is_idempotency_key}

module _ (env : Surroundings) (binding_digest : String) where
  finish_taken :
      (action digest correlation_id : String) (intent : Fields) (callback : Callback) (w : World)
      (closed : Content) (r : Fields × Bool)
      → ((operation_id : String) → WritesOnce (callback operation_id))
      → find (closure_name (operation_id_of env binding_digest digest)) w.files ≡ some closed
      → (finish env binding_digest action digest correlation_id intent callback w).0 ≡ ok r
      → ⊥
  unfolding finish
  finish_taken action digest correlation_id intent callback w closed r once taken h =
      let name = closure_name (operation_id_of env binding_digest digest) in
      let called = bind-Passed _ _ w _ h in
      let timed = bind-Passed _ _ _ _ called.second in
      let written = bind-Passed _ _ _ _ timed.second in
      durable_create-Taken env name _ _ closed written.value
        ((utc_now-WritesOnce env _).at _ (Extends-refl _) name closed
          ((once _ w.files).at w (Extends-refl w.files) name closed taken))
        written.first

  perform_taken :
      (action key digest correlation_id : String) (callback : Callback) (w : World)
      (closed : Content) (r : Fields × Bool)
      → ((operation_id : String) → WritesOnce (callback operation_id))
      → find (closure_name (operation_id_of env binding_digest digest)) w.files ≡ some closed
      → (perform env binding_digest action key digest correlation_id callback w).0 ≡ ok r
      → ⊥
  unfolding perform
  perform_taken action key digest correlation_id callback w closed r once taken h =
      let name = closure_name (operation_id_of env binding_digest digest) in
      let timed = bind-Passed _ _ w _ h in
      let written = bind-Passed _ _ _ _ timed.second in
      finish_taken action digest correlation_id _ callback _ closed r once
        ((durable_create-WritesOnce env _ _ _).at _ (Extends-refl _) name closed
          ((utc_now-WritesOnce env w.files).at w (Extends-refl w.files) name closed taken))
        written.second

  -- Where an operation is closed, the same request under a new idempotency key never returns a response,
  -- although its intent is new: the closure is there already. The effect is assumed to keep the journal's
  -- files.
  pub execute_duplicate :
      (action : String) (body : Fields) (key correlation_id : String) (callback : Callback)
      (w : World) (closed : Content) (r : Fields × Bool)
      → ((operation_id : String) → WritesOnce (callback operation_id))
      → find
          (closure_name (
            operation_id_of env binding_digest
              (request_digest env binding_digest action body correlation_id)))
          w.files
        ≡ some closed
      → find (intent_name (env.sha256 key)) w.files ≡ none
      → (execute env binding_digest action body key correlation_id callback w).0 ≢ ok r
  unfolding execute ◌>>=◌ by_intent
  execute_duplicate action body key correlation_id callback w closed r once taken fresh =
      require_cases (is_idempotency_key key) invalid_request _ w (λ q. q.0 ≡ ok r → ⊥) err-ne-ok
        (λ valid.
          subst
            (λ o.
              (by_intent env binding_digest o action key
                  (request_digest env binding_digest action body correlation_id) correlation_id
                  callback w).0
                ≡ ok r
              → ⊥)
            (sym fresh)
            (perform_taken action key (request_digest env binding_digest action body correlation_id)
              correlation_id callback w closed r once taken))
