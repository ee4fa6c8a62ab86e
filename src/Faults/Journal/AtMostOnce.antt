-- ===== src/Faults/Journal/AtMostOnce.antt =====
-- fault-control/fault_control.py, `Journal.execute` for a key that was used before.
use zkdeal_cloud_deployer_in.Faults.Model.{
  Action, Content, Fault, Surroundings, World, find, invalid_request, looked_at_clock,
}
use zkdeal_cloud_deployer_in.Base.Machine.{continue, require_cases, ◌>>=◌, ◌>>◌}
use zkdeal_cloud_deployer_in.Faults.Journal.Keeps.{replay-Keeps}
use zkdeal_cloud_deployer_in.Faults.Journal.{
  Callback, by_intent, create_if, durable_create, execute, finish, intent_name, intent_of, perform,
  replay, request_digest, stored, utc_now,
}
use zkdeal_cloud_deployer_in.Faults.Journal.WriteOnce.{
  Extends, Extends-refl, WritesOnce, find_first, finish-WritesOnce,
}
use zkdeal_cloud_deployer_in.Base.{
  Bool, Option, String, ap, false, inl, inr, none, refl, some, subst, sym, true, ◌∷◌, ◌≡◌, ◌⊎◌,
}
use zkdeal_cloud_deployer_in.Base.Json.{Fields}
use zkdeal_cloud_deployer_in.Base.Outcome.{err}
use zkdeal_cloud_deployer_in.Faults.Documents.{is_idempotency_key}

-- The world as it was, but for a look at the clock.
abbrev pub Idle : World → World → Type 0
Idle before after =
    (after ≡ before) ⊎ (after ≡ record before { history = looked_at_clock ∷ before.history })

module _ (env : Surroundings) (binding_digest : String) where
  replay-idle : (key digest : String) (w : World) → (replay env binding_digest key digest w).1 ≡ w
  replay-idle key digest w = (replay-Keeps env binding_digest {P = λ v. v ≡ w} key digest).at w refl

  -- A key whose intent is there has no effect.
  pub execute_again :
      (action : String) (body : Fields) (key correlation_id : String) (callback : Callback)
      (w : World)
      → (intent : Content) → find (intent_name (env.sha256 key)) w.files ≡ some intent
      → (execute env binding_digest action body key correlation_id callback w).1 ≡ w
  unfolding execute ◌>>=◌ by_intent
  execute_again action body key correlation_id callback w intent found =
      require_cases (is_idempotency_key key) invalid_request _ w (λ r. r.1 ≡ w) refl
        (λ valid.
          subst
            (λ o.
              (by_intent env binding_digest o action key
                (request_digest env binding_digest action body correlation_id) correlation_id
                callback w).1
              ≡ w)
            (sym found)
            (replay-idle key (request_digest env binding_digest action body correlation_id) w))

  write_then_if :
      {A : Type 0} (writable : Bool) (found : Option Content) (name : String) (value : Fields)
      (k : Action A) (w : World)
      → WritesOnce k
      → ((fault : Fault) × (continue
              (create_if env writable found name value w).0
              (λ _. k)
              (create_if env writable found name value w).1
            ≡ (err fault, w)))
        ⊎ (find name
              (continue
                (create_if env writable found name value w).0
                (λ _. k)
                (create_if env writable found name value w).1).1.files
            ≡ some (stored env value))
  unfolding create_if
  write_then_if writable (some content) name value k w once = inl (_, refl)
  write_then_if false none name value k w once = inl (_, refl)
  write_then_if true none name value k w once = inr (
      (once _).at _ (Extends-refl _) name (stored env value)
        (find_first w.files name (stored env value)))

  -- A record is written and stays, or what comes after it is not reached.
  write_then :
      {A : Type 0} (name : String) (value : Fields) (k : Action A) (w : World)
      → WritesOnce k
      → ((fault : Fault) × ((durable_create env name value >> k) w ≡ (err fault, w)))
        ⊎ (find name ((durable_create env name value >> k) w).1.files ≡ some (stored env value))
  unfolding durable_create ◌>>=◌
  write_then name value k w once =
      write_then_if (env.can_write w.history name) (find name w.files) name value k w once

  -- A new key: either its intent is not written and nothing follows, or the intent is there for good.
  pub perform-cases :
      (action key digest correlation_id : String) (callback : Callback) (w : World)
      → ((operation_id : String) → WritesOnce (callback operation_id))
      → Idle w (perform env binding_digest action key digest correlation_id callback w).1
        ⊎ ((intent : Content) × (find
                (intent_name (env.sha256 key))
                (perform env binding_digest action key digest correlation_id callback w).1.files
              ≡ some intent))
  unfolding perform ◌>>=◌ utc_now durable_create
  perform-cases action key digest correlation_id callback w once =
      let now = env.utc_now w.history in
      let intent = intent_of env binding_digest action key digest correlation_id now in
      elim (write_then (intent_name (env.sha256 key)) intent
        (finish env binding_digest action digest correlation_id intent callback)
        (record w { history = looked_at_clock ∷ w.history })
        (finish-WritesOnce env binding_digest callback once action digest correlation_id intent)) [
          | inl (fault, stopped) ↦ inl (inr (ap (λ r. r.1) stopped))
          | inr written ↦ inr (stored env intent, written)
        ]

  by_intent-cases :
      (found : Option Content) (action key digest correlation_id : String) (callback : Callback)
      (w : World)
      → ((operation_id : String) → WritesOnce (callback operation_id))
      → Idle w (by_intent env binding_digest found action key digest correlation_id callback w).1
        ⊎ ((intent : Content) × (find
                (intent_name (env.sha256 key))
                (by_intent env binding_digest found action key digest correlation_id callback
                  w).1.files
              ≡ some intent))
  unfolding by_intent
  by_intent-cases (some content) action key digest correlation_id callback w once =
      inl (inl (replay-idle key digest w))
  by_intent-cases none action key digest correlation_id callback w once =
      perform-cases action key digest correlation_id callback w once

  execute-cases :
      (action : String) (body : Fields) (key correlation_id : String) (callback : Callback)
      (w : World)
      → ((operation_id : String) → WritesOnce (callback operation_id))
      → Idle w (execute env binding_digest action body key correlation_id callback w).1
        ⊎ ((intent : Content) × (find
                (intent_name (env.sha256 key))
                (execute env binding_digest action body key correlation_id callback w).1.files
              ≡ some intent))
  unfolding execute ◌>>=◌
  execute-cases action body key correlation_id callback w once =
      require_cases (is_idempotency_key key) invalid_request _ w
        (λ r.
          Idle w r.1
          ⊎ ((intent : Content) × (find (intent_name (env.sha256 key)) r.1.files ≡ some intent)))
        (inl (inl refl))
        (λ valid.
          by_intent-cases (find (intent_name (env.sha256 key)) w.files) action key
            (request_digest env binding_digest action body correlation_id) correlation_id callback w
            once)

  -- Let the effects of a call keep the journal's files as they are. Then either the call changes nothing
  -- but a look at the clock, or in every later world that keeps its files no call with the same
  -- idempotency key changes anything, whatever its action, body and effect, and also where the first call
  -- failed half-way.
  pub at_most_once :
      (action : String) (body : Fields) (key correlation_id : String) (callback : Callback)
      (w : World)
      → ((operation_id : String) → WritesOnce (callback operation_id))
      → Idle w (execute env binding_digest action body key correlation_id callback w).1
        ⊎ ((again : String) (body_again : Fields) (correlation_id_again : String)
              (callback_again : Callback) (later : World)
            → Extends
                (execute env binding_digest action body key correlation_id callback w).1.files
                later.files
            → (execute env binding_digest again body_again key correlation_id_again callback_again
                later).1
              ≡ later)
  at_most_once action body key correlation_id callback w once =
      elim (execute-cases action body key correlation_id callback w once) [
        | inl idle ↦ inl idle
        | inr (intent, found) ↦
            inr (λ again body_again correlation_id_again callback_again later extends.
              execute_again again body_again key correlation_id_again callback_again later intent
                (extends _ intent found))
      ]
