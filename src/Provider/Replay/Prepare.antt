-- ===== src/Provider/Replay/Prepare.antt =====
-- Idempotency of `Provider._prepare` of failover-provider/provider.py.
use zkdeal_cloud_deployer_in.Base.{
  Option, String, ap, both_true, eq_iff, eq_refl, false, none, refl, some, subst, sym, ℕ, ◌&&◌,
  ◌==◌, ◌∙◌, ◌≡◌,
}
use zkdeal_cloud_deployer_in.Base.Json.{Fields}
use zkdeal_cloud_deployer_in.Provider.Model.{
  Key, Operation, Result, Surroundings, World, continue, err, ok, provider_error, pure, require,
  ◌>>=◌,
}
use zkdeal_cloud_deployer_in.Provider.Probes.{Config}
use zkdeal_cloud_deployer_in.Provider.Store.{find, find-store_self}
use zkdeal_cloud_deployer_in.Provider.Operations.{
  Driver, begin, begin_prepare, check_prepare, insert, or_else, prepare, prepare_found,
  resume_prepare, run_prepare,
}
use zkdeal_cloud_deployer_in.Provider.Rules.{Leaves-save, err-ne-ok, ok_injective, require-result}
use zkdeal_cloud_deployer_in.Provider.Ensures.{
  Ensures, Ensures-Leaves, Ensures-bind, OnlyTests, OnlyTests-bind, OnlyTests-or_missing,
  OnlyTests-require,
}
use zkdeal_cloud_deployer_in.Provider.Untouched.{wall-Leaves}
use zkdeal_cloud_deployer_in.Provider.Replay.{Answered, Begun, IsLawful, run_prepare-Answered}

module _ (env : Surroundings) (config : Config) (driver : Driver) where
  pub check_prepare-OnlyTests :
      (key : String) (request : Fields) → OnlyTests (check_prepare env config driver key request)
  unfolding check_prepare
  check_prepare-OnlyTests key request = OnlyTests-bind _ _ (OnlyTests-require _ _) λ u.
      OnlyTests-bind _ _ (OnlyTests-require _ _) λ u.
        OnlyTests-bind _ _ (OnlyTests-require _ _) λ u.
          OnlyTests-bind _ _ (OnlyTests-require _ _)
            λ u. OnlyTests-bind _ _ (OnlyTests-require _ _) λ u. OnlyTests-or_missing _ _

  module _ (key : String) (request : Fields) where
    -- After its checks, a prepare goes by the entry that it finds.
    pub prepare_checked :
        (w : World)
        → prepare env config driver key request w
          ≡ continue
              (check_prepare-OnlyTests key request).result
              (λ id v. prepare_found env config driver (find id v.operations) key request id v)
              w
    unfolding prepare ◌>>=◌
    prepare_checked w = rw ((check_prepare-OnlyTests key request).at w)

    stored_again :
        (id : Key) (response : Fields) (o : Operation) (found : Option Operation) (w : World)
        → found ≡ some o
        → o.prepare_key ≡ env.sha256 key
        → o.prepare_request ≡ env.canonical_hash request
        → o.prepare_response ≡ some response
        → prepare_found env config driver found key request id w ≡ (ok response, w)
    unfolding prepare_found resume_prepare or_else ◌>>=◌
    stored_again id response o found w e k r s =
        rw (e, k, r, s, eq_refl (env.sha256 key), eq_refl (env.canonical_hash request))

    -- A stored entry of another key or another request is refused, and nothing changes.
    stored_conflict :
        (id : Key) (o : Operation) (found : Option Operation) (w : World)
        → found ≡ some o
        → (o.prepare_key == env.sha256 key && o.prepare_request == env.canonical_hash request)
          ≡ false
        → prepare_found env config driver found key request id w
          ≡ (err (provider_error 409 "idempotency-conflict"), w)
    unfolding prepare_found resume_prepare ◌>>=◌
    stored_conflict id o found w e differs = rw (e, differs)

    insert-Begun :
        (id : Key) (now : ℕ)
        → Ensures
            (λ w. Unit {0})
            (λ u w. Begun id (env.sha256 key) (env.canonical_hash request) w.operations)
            (insert id (begin env config driver key request now))
    unfolding insert
    insert-Begun id now = record {
      at = λ w p u h. (_, find-store_self id _ w.operations, refl, refl);
    }

    resume-Begun :
        (id : Key) (o : Operation)
        → Ensures
            (λ w. find id w.operations ≡ some o)
            (λ u w.
              (find id w.operations ≡ some o)
              × (o.prepare_key ≡ env.sha256 key)
              × (o.prepare_request ≡ env.canonical_hash request))
            (require
              (o.prepare_key == env.sha256 key && o.prepare_request == env.canonical_hash request)
              (provider_error 409 "idempotency-conflict"))
    unfolding require
    resume-Begun id o = record {
      at = λ w e u h.
          let (same_key, same_request) = both_true _ _ (require-result _ _ u h) in
          (e, (eq_iff _ _).0 same_key, (eq_iff _ _).0 same_request);
    }

    module _ (lawful : IsLawful driver) (id : Key) where
      abbrev AnsweredWith : Fields → World → Type 0
      AnsweredWith response w =
          Answered id (env.sha256 key) (env.canonical_hash request) response w.operations

      run_answered :
          Ensures
            (λ w. Begun id (env.sha256 key) (env.canonical_hash request) w.operations)
            AnsweredWith
            (run_prepare env config driver id request)
      run_answered = run_prepare-Answered id _ _ env config driver lawful request

      begin_prepare-Answered :
          Ensures (λ w. Unit {0}) AnsweredWith (begin_prepare env config driver key request id)
      unfolding begin_prepare
      begin_prepare-Answered =
          Ensures-bind _ _ (Ensures-Leaves {I = λ l. Unit {0}} (wall-Leaves env)) λ now.
            Ensures-bind _ _ (insert-Begun id now)
              λ u. Ensures-bind _ _ (Ensures-Leaves Leaves-save) λ u. run_answered

      or_else-Answered :
          (o : Operation) (kept : Option Fields)
          → o.prepare_response ≡ kept
          → (w : World) → find id w.operations ≡ some o
          → o.prepare_key ≡ env.sha256 key
          → o.prepare_request ≡ env.canonical_hash request
          → (r : Fields) → (or_else kept (run_prepare env config driver id request) w).0 ≡ ok r
          → AnsweredWith r (or_else kept (run_prepare env config driver id request) w).1
      unfolding or_else pure
      or_else-Answered o none e w f k q r h = run_answered.at w (o, f, k, q) r h
      or_else-Answered o (some response) e w f k q r h = (o, f, k, q, e ∙ ap some (ok_injective h))

      resume_prepare-Answered :
          (o : Operation)
          → Ensures
              (λ w. find id w.operations ≡ some o)
              AnsweredWith
              (resume_prepare env config driver key request id o)
      unfolding resume_prepare
      resume_prepare-Answered o = Ensures-bind _ _ (resume-Begun id o) λ u. record {
        at = λ w p r h. or_else-Answered o o.prepare_response refl w p.0 p.1 p.2 r h;
      }

      prepare_found-Answered :
          (found : Option Operation) (w : World)
          → find id w.operations ≡ found
          → (r : Fields) → (prepare_found env config driver found key request id w).0 ≡ ok r
          → AnsweredWith r (prepare_found env config driver found key request id w).1
      unfolding prepare_found
      prepare_found-Answered none w e r h = begin_prepare-Answered.at w tt r h
      prepare_found-Answered (some o) w e r h = (resume_prepare-Answered o).at w e r h

    module _ (lawful : IsLawful driver) where
      after_checks :
          (checked : Result Key) (w : World) (r : Fields)
          → (continue checked
              (λ id v. prepare_found env config driver (find id v.operations) key request id v)
              w).0
            ≡ ok r
          → (id : Key) × (checked ≡ ok id)
            × AnsweredWith lawful id r
                (continue checked
                  (λ id v. prepare_found env config driver (find id v.operations) key request id v)
                  w).1
      after_checks (err e) w r h = absurd (err-ne-ok h)
      after_checks (ok id) w r h = (id, refl, prepare_found-Answered lawful id _ w refl r h)

      -- A prepare that has returned a response leaves an entry that holds it.
      pub prepare-Answered :
          (w : World) (r : Fields)
          → (prepare env config driver key request w).0 ≡ ok r
          → (id : Key) × ((check_prepare-OnlyTests key request).result ≡ ok id)
            × Answered id
                (env.sha256 key)
                (env.canonical_hash request)
                r
                (prepare env config driver key request w).1.operations
      prepare-Answered w r h =
          subst
            (λ (out : Result Fields × World).
              out.0 ≡ ok r
              → (id : Key) × ((check_prepare-OnlyTests key request).result ≡ ok id)
                × Answered id (env.sha256 key) (env.canonical_hash request) r out.1.operations)
            (sym (prepare_checked w)) (after_checks _ w r) h

      -- Over a driver that changes the operations through its checkpoint alone: once a prepare has
      -- returned a response, the same request with the same key returns that response again, changes
      -- no operation and asks nothing of the platform.
      pub prepare_replays :
          (w : World) (r : Fields)
          → (prepare env config driver key request w).0 ≡ ok r
          → prepare env config driver key request (prepare env config driver key request w).1
            ≡ (ok r, (prepare env config driver key request w).1)
      prepare_replays w r h =
          let (id, e, a) = prepare-Answered w r h in
          prepare_checked _ ∙ rw e (stored_again id r a.0 _ _ a.1 a.2 a.3 a.4)

  same_result :
      (w : World) (key key' : String) (request request' : Fields)
      → (check_prepare env config driver key' request' w).0
        ≡ (check_prepare env config driver key request w).0
      → (check_prepare-OnlyTests key' request').result
        ≡ (check_prepare-OnlyTests key request).result
  same_result w key key' request request' same =
      sym (ap (λ x. x.0) ((check_prepare-OnlyTests key' request').at w))
      ∙ (same ∙ ap (λ x. x.0) ((check_prepare-OnlyTests key request).at w))

  module _ (lawful : IsLawful driver) where
    -- Over a driver that changes the operations through its checkpoint alone: once a prepare has
    -- returned a response, a later prepare that passes the
    -- checks for the same candidate with another key hash or another request hash is refused with
    -- status 409, changes nothing and asks nothing of the platform.
    pub prepare_conflict :
        (key key' : String) (request request' : Fields) (w : World) (r : Fields)
        → (prepare env config driver key request w).0 ≡ ok r
        → (check_prepare env config driver key' request' w).0
          ≡ (check_prepare env config driver key request w).0
        → (env.sha256 key == env.sha256 key'
            && env.canonical_hash request == env.canonical_hash request')
          ≡ false
        → prepare env config driver key' request' (prepare env config driver key request w).1 ≡ (
          err (provider_error 409 "idempotency-conflict"),
          (prepare env config driver key request w).1,
        )
    prepare_conflict key key' request request' w r h same differs =
        let (id, e, a) = prepare-Answered key request lawful w r h in
        prepare_checked key' request' _
        ∙ rw (same_result w key key' request request' same ∙ e)
            (stored_conflict key' request' id a.0 _ _ a.1 (rw (a.2, a.3) differs))
