-- ===== src/Faults/Journal/Keeps.antt =====
-- fault-control/fault_control.py, class `Journal`: what its steps keep of the world, given what the clock,
-- a new record and the effect keep.
use zkdeal_cloud_deployer_in.Faults.Model.{
  Content, Surroundings, World, created, find, looked_at_clock,
}
use zkdeal_cloud_deployer_in.Faults.Journal.{
  Callback, by_intent, create_if, durable_create, execute, finish, perform, read_record, replay,
  replay_closure, request_digest, stored, utc_now,
}
use zkdeal_cloud_deployer_in.Base.Machine.Keeps.{
  Keeps, Keeps-bind, Keeps-gets, Keeps-require, Keeps-then, keeps_rules,
}
use zkdeal_cloud_deployer_in.Base.{Bool, Option, String, false, none, refl, some, true, ◌∷◌, ◌≡◌}
use zkdeal_cloud_deployer_in.Base.Json.{Fields}

read_record-Keeps : {P : World → Type 0} (name : String) → Keeps P (read_record name)
unfolding read_record
read_record-Keeps name = record { at = λ w p. p }

ruleset read_rules = (read_record-Keeps, keeps_rules)

module _ (env : Surroundings) (binding_digest : String) where
  replay_closure-Keeps :
      {P : World → Type 0} (operation_id : String)
      → Keeps P (replay_closure env binding_digest operation_id)
  unfolding replay_closure
  replay_closure-Keeps operation_id = search read_rules depth 12

  pub replay-Keeps :
      {P : World → Type 0} (key digest : String) → Keeps P (replay env binding_digest key digest)
  unfolding replay
  replay-Keeps key digest = search (replay_closure-Keeps, read_rules) depth 12

-- A look at the clock keeps `P`, and so does a record under a new name.
abbrev pub KeepsClock : (World → Type 0) → Type 0
KeepsClock P = (w : World) → P w → P (record w { history = looked_at_clock ∷ w.history })

abbrev pub KeepsNew : (World → Type 0) → Type 0
KeepsNew P =
    (name : String) (content : Content) (w : World)
    → find name w.files ≡ none
    → P w
    → P (record { files = (name, content) ∷ w.files; history = created name ∷ w.history })

module _ (env : Surroundings) {P : World → Type 0} (clock : KeepsClock P) (new : KeepsNew P) where
  pub utc_now-Keeps : Keeps P (utc_now env)
  unfolding utc_now
  utc_now-Keeps = record { at = clock }

  create_if-kept :
      (writable : Bool) (found : Option Content) (name : String) (value : Fields) (w : World)
      → find name w.files ≡ found
      → P w
      → P (create_if env writable found name value w).1
  unfolding create_if
  create_if-kept writable (some content) name value w e p = p
  create_if-kept false none name value w e p = p
  create_if-kept true none name value w e p = new name (stored env value) w e p

  pub durable_create-Keeps :
      (name : String) (value : Fields) → Keeps P (durable_create env name value)
  unfolding durable_create
  durable_create-Keeps name value = record {
    at = λ w p.
        create_if-kept (env.can_write w.history name) (find name w.files) name value w refl p;
  }

  module _ (binding_digest : String) (callback : Callback)
      (effect : (operation_id : String) → Keeps P (callback operation_id)) where
    pub finish-Keeps :
        (action digest correlation_id : String) (intent : Fields)
        → Keeps P (finish env binding_digest action digest correlation_id intent callback)
    unfolding finish
    finish-Keeps action digest correlation_id intent =
        search (utc_now-Keeps, durable_create-Keeps, read_rules) depth 12

    by_intent-Keeps :
        (found : Option Content) (action key digest correlation_id : String)
        → Keeps P (by_intent env binding_digest found action key digest correlation_id callback)
    unfolding by_intent perform
    by_intent-Keeps (some content) action key digest correlation_id =
        replay-Keeps env binding_digest key digest
    by_intent-Keeps none action key digest correlation_id = Keeps-bind _ _ utc_now-Keeps (λ started.
        Keeps-then _ _ (durable_create-Keeps _ _) (finish-Keeps action digest correlation_id _))

    pub execute-Keeps :
        (action : String) (body : Fields) (key correlation_id : String)
        → Keeps P (execute env binding_digest action body key correlation_id callback)
    unfolding execute
    execute-Keeps action body key correlation_id = Keeps-then _ _ (Keeps-require _ _) (
        Keeps-bind _ _ (Keeps-gets _) (λ found.
          by_intent-Keeps found action key
            (request_digest env binding_digest action body correlation_id) correlation_id))
