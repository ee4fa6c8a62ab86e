-- ===== src/Provider/Guarded.antt =====
-- failover-provider/provider.py: what the authentication of `do_POST` keeps out.
use zkdeal_cloud_deployer_in.Base.{Option, String, ap, none, refl, some, subst, sym, ◌∙◌, ◌≡◌}
use zkdeal_cloud_deployer_in.Base.Json.{Json, arr, bool, float, int, null, obj, str}
use zkdeal_cloud_deployer_in.Provider.Model.{
  Action, Fault, Result, Surroundings, World, continue, err, ok, pure, raise, ◌>>=◌,
}
use zkdeal_cloud_deployer_in.Provider.Probes.{Config}
use zkdeal_cloud_deployer_in.Provider.Operations.{Driver, authenticate}
use zkdeal_cloud_deployer_in.Provider.Ensures.{
  OnlyTests, OnlyTests-bind, OnlyTests-or_missing, OnlyTests-require,
}
use zkdeal_cloud_deployer_in.Provider.Http.{Request, body_object, do_post, handle_post}

-- `m` raises, and neither changes nor asks anything.
record Halts {A : Type 0} (m : Action A) : Type 0 where
  at : (w : World) → (fault : Fault) × (m w ≡ (err fault, w))

module _ {A B : Type 0} where
  continue-Halts :
      (r : Result A) (f : A → Action B)
      → ((a : A) → Halts (f a))
      → (w : World) → (fault : Fault) × (continue r f w ≡ (err fault, w))
  continue-Halts (ok a) f k w = (k a).at w
  continue-Halts (err fault) f k w = (fault, refl)

  tests-Halts :
      (m : Action A) (f : A → Action B) → OnlyTests m → ((a : A) → Halts (f a)) → Halts (m >>= f)
  unfolding ◌>>=◌
  tests-Halts m f tests k = record {
    at = λ w.
        subst
          (λ (out : Result A × World). (fault : Fault) × (continue out.0 f out.1 ≡ (err fault, w)))
          (sym (tests.at w)) (continue-Halts tests.result f k w);
  }

  failed-Halts :
      (m : Action A) (f : A → Action B) (fault : Fault)
      → ((w : World) → m w ≡ (err fault, w))
      → Halts (m >>= f)
  unfolding ◌>>=◌
  failed-Halts m f fault e = record { at = λ w. (fault, rw (e w) refl) }

body_object-OnlyTests : (body : Option Json) → OnlyTests (body_object body)
unfolding raise pure
body_object-OnlyTests none = record { result = _; at = λ w. refl }
body_object-OnlyTests (some (obj fields)) = record { result = _; at = λ w. refl }
body_object-OnlyTests (some null) = record { result = _; at = λ w. refl }
body_object-OnlyTests (some (bool b)) = record { result = _; at = λ w. refl }
body_object-OnlyTests (some (int z)) = record { result = _; at = λ w. refl }
body_object-OnlyTests (some (float t)) = record { result = _; at = λ w. refl }
body_object-OnlyTests (some (str t)) = record { result = _; at = λ w. refl }
body_object-OnlyTests (some (arr items)) = record { result = _; at = λ w. refl }

module _ (env : Surroundings) (config : Config) where
  authenticate-OnlyTests :
      (authorization approval : Option String)
      → OnlyTests (authenticate env config authorization approval)
  unfolding authenticate
  authenticate-OnlyTests authorization approval =
      OnlyTests-bind _ _ (OnlyTests-require _ _) λ u. OnlyTests-require _ _

  refused_everywhere :
      (authorization approval : Option String) (fault : Fault) (w : World)
      → (authenticate env config authorization approval w).0 ≡ err fault
      → (v : World) → authenticate env config authorization approval v ≡ (err fault, v)
  refused_everywhere authorization approval fault w e v =
      let tests = authenticate-OnlyTests authorization approval in
      tests.at v ∙ ap (λ r. (r, v)) (sym (ap (λ x. x.0) (tests.at w)) ∙ e)

  module _ (driver : Driver) where
    handle_post-Halts :
        (request : Request) (fault : Fault) (w : World)
        → (authenticate env config request.authorization request.approval w).0 ≡ err fault
        → Halts (handle_post env config driver request)
    unfolding handle_post
    handle_post-Halts request fault w e = tests-Halts _ _ (OnlyTests-or_missing _ _) λ length.
        tests-Halts _ _ (OnlyTests-require _ _) λ u. tests-Halts _ _ (OnlyTests-require _ _) λ u.
          tests-Halts _ _ (body_object-OnlyTests _)
            λ value. failed-Halts _ _ fault (refused_everywhere _ _ fault w e)

    -- A POST request that fails its authentication leaves the operations as they are, and nothing is
    -- asked of the platform, the services or the clocks, whatever its path and body.
    pub do_post-unauthenticated :
        (request : Request) (fault : Fault) (w : World)
        → (authenticate env config request.authorization request.approval w).0 ≡ err fault
        → (do_post env config driver request w).1 ≡ w
    unfolding do_post
    do_post-unauthenticated request fault w e =
        ap (λ x. x.1) ((handle_post-Halts request fault w e).at w).1
