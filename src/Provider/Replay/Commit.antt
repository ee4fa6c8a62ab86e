-- ===== src/Provider/Replay/Commit.antt =====
-- Idempotency of `Provider._commit` of failover-provider/provider.py.
use zkdeal_cloud_deployer_in.Base.Text.{is_safe_id}
use zkdeal_cloud_deployer_in.Base.{
  Option, String, [], ap, both_true, eq_iff, eq_refl, false, none, refl, some, subst, sym, true, ℕ,
  ◌&&◌, ◌==◌, ◌∙◌, ◌∷◌, ◌≡◌,
}
use zkdeal_cloud_deployer_in.Base.Json.{Fields, get, has_exactly}
use zkdeal_cloud_deployer_in.Provider.Model.{
  Operation, Operations, Surroundings, World, committed, named, ok, provider_error, pure, require,
  save, ◌>>=◌, ◌>>◌,
}
use zkdeal_cloud_deployer_in.Provider.Probes.{Config}
use zkdeal_cloud_deployer_in.Provider.Store.{find}
use zkdeal_cloud_deployer_in.Provider.Operations.{
  Driver, amend, begin_commit, commit, commit_found, complete, equals, is_hash_scalar, is_prepared,
  or_else, resume_commit, run_commit,
}
use zkdeal_cloud_deployer_in.Provider.Rules.{
  Leaves-gets, Leaves-or_missing, Leaves-require, Leaves-save, ok_injective, require-result,
}
use zkdeal_cloud_deployer_in.Provider.Ensures.{
  Ensures, Ensures-Leaves, Ensures-bind, Ensures-gets, Ensures-or_missing, Ensures-require,
}
use zkdeal_cloud_deployer_in.Provider.Untouched.{wall-Leaves}
use zkdeal_cloud_deployer_in.Provider.Replay.{IsLawful, amend_found}

equals-some : (o : Option String) (b : String) → equals o b ≡ true → o ≡ some b
equals-some none b h = cc
equals-some (some a) b h = ap some ((eq_iff a b).0 h)

module _ (env : Surroundings) (config : Config) (driver : Driver) where
  module _ (operation_id key : String) (request : Fields) where
    -- The entry is prepared and belongs to this commit.
    abbrev Committing : Operations → Type 0
    Committing l =
        (o : Operation) × (find (named operation_id) l ≡ some o)
        × (is_prepared o ≡ true)
        × (o.commit_key ≡ some (env.sha256 key))
        × (o.commit_request ≡ some (env.canonical_hash request))

    -- It also holds the response.
    abbrev Done : Fields → Operations → Type 0
    Done r l =
        (o : Operation) × (find (named operation_id) l ≡ some o)
        × (is_prepared o ≡ true)
        × (o.commit_key ≡ some (env.sha256 key))
        × (o.commit_request ≡ some (env.canonical_hash request))
        × (o.commit_response ≡ some r)

    abbrev close : Fields → ℕ → ℕ → Operation → Operation
    close answer captured now o = record o {
      commit_response = some (complete answer captured now);
      commit_response_hash = some (env.canonical_hash (complete answer captured now));
      phase = committed;
      committed_at = some now;
    }

    record_commit :
        (answer : Fields) (captured now : ℕ)
        → Ensures
            (λ w. Committing w.operations)
            (λ r w. Done r w.operations)
            (amend (named operation_id) (close answer captured now)
              >> (save >> pure (complete answer captured now)))
    unfolding ◌>>=◌ amend
    record_commit answer captured now = record {
      at = λ w c r h.
          subst
            (λ x. Done x (amend (named operation_id) (close answer captured now) w).1.operations)
            (ok_injective h)
            (
              close answer captured now c.0,
              amend_found (named operation_id) (close answer captured now) w c.0 c.1,
              refl,
              c.3,
              c.4,
              refl,
            );
    }

    module _ (lawful : IsLawful driver) where
      run_commit-Done :
          Ensures
            (λ w. Committing w.operations)
            (λ r w. Done r w.operations)
            (run_commit env config driver operation_id)
      unfolding run_commit
      run_commit-Done =
          Ensures-bind _ _ (Ensures-Leaves (lawful.commit_leaves _ operation_id)) λ answer.
            Ensures-bind _ _ (Ensures-Leaves (Leaves-require _ _)) λ u.
              Ensures-bind _ _ (Ensures-Leaves (wall-Leaves env)) λ now.
                Ensures-bind _ _ (Ensures-Leaves (Leaves-gets _)) λ found.
                  Ensures-bind _ _ (Ensures-Leaves (Leaves-or_missing _ _)) λ operation.
                    Ensures-bind _ _ (Ensures-Leaves (Leaves-or_missing _ _))
                      λ captured. record_commit answer captured now

      abbrev bind_commit : Operation → Operation
      bind_commit o = record o {
        commit_key = some (env.sha256 key);
        commit_request = some (env.canonical_hash request);
        owner_response = some (get request "ownerResponseSha256");
      }

      bind_commit-Committing :
          (o : Operation)
          → Ensures
              (λ w. (find (named operation_id) w.operations ≡ some o) × (is_prepared o ≡ true))
              (λ u w. Committing w.operations)
              (amend (named operation_id) bind_commit)
      bind_commit-Committing o = record {
        at = λ w p u h.
            (bind_commit o, amend_found (named operation_id) bind_commit w o p.0, p.1, refl, refl);
      }

      begin_commit-Done :
          (o : Operation)
          → Ensures
              (λ w. (find (named operation_id) w.operations ≡ some o) × (is_prepared o ≡ true))
              (λ r w. Done r w.operations)
              (begin_commit env config driver operation_id key request)
      unfolding begin_commit
      begin_commit-Done o =
          Ensures-bind _ _ (bind_commit-Committing o)
            λ u. Ensures-bind _ _ (Ensures-Leaves Leaves-save) λ v. run_commit-Done

      same_commit :
          (o : Operation)
          → Ensures
              (λ w. (find (named operation_id) w.operations ≡ some o) × (is_prepared o ≡ true))
              (λ u w.
                (find (named operation_id) w.operations ≡ some o)
                × (is_prepared o ≡ true)
                × (o.commit_key ≡ some (env.sha256 key))
                × (o.commit_request ≡ some (env.canonical_hash request)))
              (require
                (equals o.commit_key (env.sha256 key)
                  && equals o.commit_request (env.canonical_hash request))
                (provider_error 409 "idempotency-conflict"))
      unfolding require
      same_commit o = record {
        at = λ w p u h.
            let (a, b) = both_true _ _ (require-result _ _ u h) in
            (p.0, p.1, equals-some o.commit_key _ a, equals-some o.commit_request _ b);
      }

      or_else-Done :
          (o : Operation) (kept : Option Fields)
          → o.commit_response ≡ kept
          → Ensures
              (λ w.
                (find (named operation_id) w.operations ≡ some o)
                × (is_prepared o ≡ true)
                × (o.commit_key ≡ some (env.sha256 key))
                × (o.commit_request ≡ some (env.canonical_hash request)))
              (λ r w. Done r w.operations)
              (or_else kept (run_commit env config driver operation_id))
      unfolding or_else pure
      or_else-Done o none e = record {
        at = λ w p r h. run_commit-Done.at w (o, p.0, p.1, p.2, p.3) r h;
      }
      or_else-Done o (some response) e = record {
        at = λ w p r h. (o, p.0, p.1, p.2, p.3, e ∙ ap some (ok_injective h));
      }

      resume_chain :
          (o : Operation)
          → Ensures
              (λ w. (find (named operation_id) w.operations ≡ some o) × (is_prepared o ≡ true))
              (λ r w. Done r w.operations)
              (resume_commit env config driver operation_id key request o)
      unfolding resume_commit
      resume_chain o = Ensures-bind _ _ (same_commit o) λ u. or_else-Done o o.commit_response refl

      commit_found-Done :
          (used : Option String) (o : Operation)
          → Ensures
              (λ w. (find (named operation_id) w.operations ≡ some o) × (is_prepared o ≡ true))
              (λ r w. Done r w.operations)
              (commit_found env config driver used operation_id key request o)
      unfolding commit_found
      commit_found-Done none o = begin_commit-Done o
      commit_found-Done (some used) o = resume_chain o

      -- The checks of `_commit` that do not read the operations.
      abbrev WellFormed : Type 0
      WellFormed =
          ((is_safe_id operation_id && is_safe_id key) ≡ true)
          × ((has_exactly request ("ownerResponseSha256" ∷ [])
                && is_hash_scalar (get request "ownerResponseSha256"))
              ≡ true)

      commit-Done :
          Ensures
            (λ w. Unit {0})
            (λ r w. WellFormed × Done r w.operations)
            (commit env config driver operation_id key request)
      unfolding commit
      commit-Done = Ensures-bind _ _ (Ensures-require _ _) λ u.
          Ensures-bind _ _ (Ensures-require _ _) λ u. Ensures-bind _ _ (Ensures-gets _) λ found.
            Ensures-bind _ _ (Ensures-or_missing _ _) λ o.
              Ensures-bind _ _ (Ensures-require _ _) λ u. record {
                at = λ w p r h.
                    let (((checks, e), f), ready) = p in
                    ((checks.0.1, checks.1), (commit_found-Done _ o).at w (sym e ∙ f, ready) r h);
              }

      repeats :
          (r : Fields) (w : World)
          → (env.sha256 key == "") ≡ false
          → WellFormed
          → Done r w.operations
          → commit env config driver operation_id key request w ≡ (ok r, w)
      unfolding commit commit_found resume_commit or_else ◌>>=◌
      repeats r w nonempty checks d = rw (
        checks.0,
        checks.1,
        d.1,
        d.2,
        d.3,
        nonempty,
        d.4,
        d.5,
        eq_refl (env.sha256 key),
        eq_refl (env.canonical_hash request),
      )

      -- Over a driver that changes the operations through its checkpoint alone, and for a key whose
      -- digest is not the empty text: once a commit has returned a response, the same commit with the
      -- same key returns that response again, changes no operation and asks nothing of the platform.
      pub commit_replays :
          (w : World) (r : Fields)
          → (env.sha256 key == "") ≡ false
          → (commit env config driver operation_id key request w).0 ≡ ok r
          → commit env config driver operation_id key request
              (commit env config driver operation_id key request w).1
            ≡ (ok r, (commit env config driver operation_id key request w).1)
      commit_replays w r nonempty h =
          let (checks, d) = commit-Done.at w tt r h in repeats r _ nonempty checks d
