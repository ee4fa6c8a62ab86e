-- ===== src/Provider/Replay.antt =====
-- Repeated requests to `Provider.prepare` and `Provider.commit` of failover-provider/provider.py, over
-- any driver that changes the operations through its checkpoint alone.
pub mod Prepare
pub mod Commit
use zkdeal_cloud_deployer_in.Base.{Option, String, refl, some, subst, ◌∙◌, ◌≡◌}
use zkdeal_cloud_deployer_in.Base.Json.{Fields, Json}
use zkdeal_cloud_deployer_in.Provider.Model.{
  Action, Key, Operation, Operations, Surroundings, World, prepared, pure, save, ◌>>=◌, ◌>>◌,
}
use zkdeal_cloud_deployer_in.Provider.Probes.{Config}
use zkdeal_cloud_deployer_in.Provider.Store.{find, find-store_self}
use zkdeal_cloud_deployer_in.Provider.Operations.{Driver, amend, checkpoint, run_prepare}
use zkdeal_cloud_deployer_in.Provider.Rules.{
  Leaves, Leaves-bind, Leaves-gets, Leaves-or_missing, Leaves-require, Leaves-save, Leaves-then,
  ok_injective,
}
use zkdeal_cloud_deployer_in.Provider.Untouched.{
  verify_standby-Leaves, verify_witness_failures-Leaves, wall-Leaves,
}
use zkdeal_cloud_deployer_in.Provider.Ensures.{Ensures, Ensures-Leaves, Ensures-bind}

-- The interface that both drivers implement.
pub record IsLawful (driver : Driver) : Type 1 where
  pub prepare_leaves :
      (I : Operations → Type 0) (checkpoint : String → Action (Unit {0}))
      → ((target : String) → Leaves I (checkpoint target))
      → (candidate : Json) (existing : Option String)
      → Leaves I (driver.prepare candidate existing checkpoint)
  pub commit_leaves :
      (I : Operations → Type 0) (operation_id : String) → Leaves I (driver.commit operation_id)

-- The stored entry belongs to this key and this request.
abbrev pub Begun : Key → String → String → Operations → Type 0
Begun id key_hash request_hash l =
    (o : Operation) × (find id l ≡ some o)
    × (o.prepare_key ≡ key_hash)
    × (o.prepare_request ≡ request_hash)

-- It also holds the response.
abbrev pub Answered : Key → String → String → Fields → Operations → Type 0
Answered id key_hash request_hash response l =
    (o : Operation) × (find id l ≡ some o)
    × (o.prepare_key ≡ key_hash)
    × (o.prepare_request ≡ request_hash)
    × (o.prepare_response ≡ some response)

pub amend_found :
    (id : Key) (change : Operation → Operation) (w : World) (o : Operation)
    → find id w.operations ≡ some o
    → find id (amend id change w).1.operations ≡ some (change o)
unfolding amend
amend_found id change w o e = rw e (find-store_self id (change o) w.operations)

module _ (id : Key) (key_hash request_hash : String) where
  amend-Begun :
      (change : Operation → Operation)
      → ((o : Operation) → (change o).prepare_key ≡ o.prepare_key)
      → ((o : Operation) → (change o).prepare_request ≡ o.prepare_request)
      → Leaves (Begun id key_hash request_hash) (amend id change)
  amend-Begun change same_key same_request = record {
    at = λ w b.
        (change b.0, amend_found id change w b.0 b.1, same_key b.0 ∙ b.2, same_request b.0 ∙ b.3);
  }

  module _ (env : Surroundings) (config : Config) (driver : Driver) (lawful : IsLawful driver) where
    pub checkpoint-Begun :
        (target : String)
        → Leaves (Begun id key_hash request_hash) (checkpoint env config driver id target)
    unfolding checkpoint
    checkpoint-Begun target =
        Leaves-bind _ _ (wall-Leaves env)
          λ now. Leaves-then _ _ (amend-Begun _ (λ o. refl) (λ o. refl)) Leaves-save

    abbrev finish : Fields → Operation → Operation
    finish response o = record o {
      prepare_response = some response;
      prepare_response_hash = some (env.canonical_hash response);
      phase = prepared;
    }

    record_response :
        (response : Fields)
        → Ensures
            (λ w. Begun id key_hash request_hash w.operations)
            (λ r w. Answered id key_hash request_hash r w.operations)
            (amend id (finish response) >> (save >> pure response))
    unfolding ◌>>=◌ amend
    record_response response = record {
      at = λ w b r h.
          subst
            (λ x. Answered id key_hash request_hash x (amend id (finish response) w).1.operations)
            (ok_injective h)
            (finish response b.0, amend_found id (finish response) w b.0 b.1, b.2, b.3, refl);
    }

    pub run_prepare-Answered :
        (request : Fields)
        → Ensures
            (λ w. Begun id key_hash request_hash w.operations)
            (λ r w. Answered id key_hash request_hash r w.operations)
            (run_prepare env config driver id request)
    unfolding run_prepare
    run_prepare-Answered request =
        Ensures-bind _ _ (Ensures-Leaves (verify_witness_failures-Leaves env config _ _)) λ u.
          Ensures-bind _ _ (Ensures-Leaves (verify_standby-Leaves env config _)) λ u.
            Ensures-bind _ _ (Ensures-Leaves (Leaves-gets _)) λ found.
              Ensures-bind _ _ (Ensures-Leaves (Leaves-or_missing _ _)) λ operation.
                Ensures-bind _ _ (Ensures-Leaves (lawful.prepare_leaves _ _ checkpoint-Begun _ _))
                  λ response.
                    Ensures-bind _ _ (Ensures-Leaves (Leaves-require _ _))
                      λ u. record_response response
