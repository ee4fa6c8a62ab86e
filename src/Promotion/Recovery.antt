-- ===== src/Promotion/Recovery.antt =====
-- scripts/promotion_controller.py: what `run` returns, and the recovery time of a promotion.
use zkdeal_cloud_deployer_in.Base.{
  Bool, Option, String, [], ap, false, leb, leb→le, none, refl, some, subst, sym, true, ℕ, ◌*◌, ◌-◌,
  ◌∷◌, ◌≡◌, ◌≤◌,
}
use zkdeal_cloud_deployer_in.Base.Lists.{length}
use zkdeal_cloud_deployer_in.Base.Json.{Fields, bool, dict, num}
use zkdeal_cloud_deployer_in.Promotion.Model.{
  Action, Config, History, Result, Surroundings, after, check, continue, emit, emitted, err, lift,
  looked_at_clock, monotonic, ok, pure, rto_exceeded, ◌>>=◌, ◌>>◌,
}
use zkdeal_cloud_deployer_in.Promotion.Monitor.{monitor}
use zkdeal_cloud_deployer_in.Promotion.Promote.{
  after_monitor, commit_promotion, completion, promote, promote_owner, run,
}
use zkdeal_cloud_deployer_in.Promotion.Discipline.Order.{ok_injective}

-- Every value that an action returns, with the history that it leaves, is in the relation `P`.
abbrev Returns {ℓ} : {A : Type ℓ} → (History → A → Type 0) → Action A → Type ℓ
Returns {A} P m = (h : History) (a : A) → (m h).0 ≡ ok a → P (m h).1 a

module _ {ℓ κ} {A : Type ℓ} {B : Type κ} (P : History → B → Type 0) where
  continue-Returns :
      (r : Result A) (f : A → Action B) (h : History)
      → ((a : A) → r ≡ ok a → (b : B) → (f a h).0 ≡ ok b → P (f a h).1 b)
      → (b : B) → (continue r f h).0 ≡ ok b
      → P (continue r f h).1 b
  continue-Returns (ok a) f h k b e = k a refl b e
  continue-Returns (err x) f h k b e = cc

  -- What follows runs from the history that the first action leaves.
  bind_at :
      (m : Action A) (f : A → Action B) (h : History)
      → ((a : A) → (m h).0 ≡ ok a → (b : B) → (f a (m h).1).0 ≡ ok b → P (f a (m h).1).1 b)
      → (b : B) → ((m >>= f) h).0 ≡ ok b
      → P ((m >>= f) h).1 b
  unfolding ◌>>=◌
  bind_at m f h k b e = continue-Returns (m h).0 f (m h).1 k b e

  bind-Returns :
      (m : Action A) (f : A → Action B) → ((a : A) → Returns P (f a)) → Returns P (m >>= f)
  bind-Returns m f k h = bind_at m f h (λ a p b e. k a _ b e)

module _ (env : Surroundings) (config : Config) where
  bind-clock :
      {B : Type 0} (P : History → B → Type 0) (f : ℕ → Action B)
      → ((h : History) (b : B)
          → (f (env.monotonic h) (looked_at_clock ∷ h)).0 ≡ ok b
          → P (f (env.monotonic h) (looked_at_clock ∷ h)).1 b)
      → Returns P (monotonic env >>= f)
  unfolding ◌>>=◌ monotonic
  bind-clock P f k h b e = k h b e

  -- How a promotion ends that returns an outcome: a look at the clock and the note of the completion, whose
  -- time is what the clock tells then less the time of the first failure, and within the configured one.
  pub record InTime (first_failure : ℕ) (after : History) (outcome : Fields) : Type 0 where
    pub operation_id : String
    pub before : History
    pub report : outcome ≡ completion env config operation_id (env.monotonic before - first_failure)
    pub in_time : env.monotonic before - first_failure ≤ config.max_rto_seconds * 1000
    pub ended : after ≡ emitted "promotion-complete" outcome ∷ looked_at_clock ∷ before

  concluded :
      (b : Bool) (first_failure : ℕ) (operation_id : String) (before : History) (outcome : Fields)
      → leb (env.monotonic before - first_failure) (config.max_rto_seconds * 1000) ≡ b
      → ((lift (check b rto_exceeded)
            >> (emit "promotion-complete"
                  (completion env config operation_id (env.monotonic before - first_failure))
                >> pure
                    (completion env config operation_id (env.monotonic before - first_failure))))
          (looked_at_clock ∷ before)).0
        ≡ ok outcome
      → InTime first_failure
          ((lift (check b rto_exceeded)
              >> (emit "promotion-complete"
                    (completion env config operation_id (env.monotonic before - first_failure))
                  >> pure
                      (completion env config operation_id (env.monotonic before - first_failure))))
            (looked_at_clock ∷ before)).1
          outcome
  unfolding ◌>>=◌ emit lift
  concluded true first_failure operation_id before outcome small e = record {
    operation_id = operation_id;
    before = before;
    report = sym (ok_injective e);
    in_time = leb→le _ _ small;
    ended = ap (λ o. emitted "promotion-complete" o ∷ looked_at_clock ∷ before) (ok_injective e);
  }
  concluded false first_failure operation_id before outcome small e = cc

  commit_promotion-InTime :
      (first_failure : ℕ) (operation_id owner_hash : String)
      → Returns
          (InTime first_failure)
          (commit_promotion env config first_failure operation_id owner_hash)
  unfolding commit_promotion
  commit_promotion-InTime first_failure operation_id owner_hash =
      bind-Returns (InTime first_failure) _ _ λ commit.
        bind-Returns (InTime first_failure) _ _ λ valid.
          bind-clock (InTime first_failure) _
            λ h outcome e. concluded _ first_failure operation_id h outcome refl e

  promote_owner-InTime :
      (first_failure : ℕ) (operation_id : String)
      → Returns (InTime first_failure) (promote_owner env config first_failure operation_id)
  unfolding promote_owner
  promote_owner-InTime first_failure operation_id = bind-Returns (InTime first_failure) _ _ λ owner.
      bind-Returns (InTime first_failure) _ _ λ u.
        bind-Returns (InTime first_failure) _ _
          λ v. commit_promotion-InTime first_failure operation_id _

  promote-InTime :
      (first_failure : ℕ) → Returns (InTime first_failure) (promote env config first_failure)
  unfolding promote
  promote-InTime first_failure = bind-Returns (InTime first_failure) _ _ λ u.
      bind-Returns (InTime first_failure) _ _ λ standby.
        bind-Returns (InTime first_failure) _ _ λ v.
          bind-Returns (InTime first_failure) _ _ λ prepare.
            bind-Returns (InTime first_failure) _ _ λ operation_id.
              bind-Returns (InTime first_failure) _ _
                λ w. promote_owner-InTime first_failure operation_id

  -- The outcome of a run that promoted, after its monitoring loop left with a time.
  abbrev pub PromotedInTime : Result (Option ℕ) → History → Option Fields → Type 0
  PromotedInTime reached after none = Unit
  PromotedInTime reached after (some outcome) =
      (first_failure : ℕ) × (reached ≡ ok (some first_failure)) × InTime first_failure after outcome

  after_monitor-InTime :
      (reached : Option ℕ)
      → Returns (PromotedInTime (ok reached)) (after_monitor env config reached)
  unfolding after_monitor ◌>>=◌ pure
  after_monitor-InTime none h none e = tt
  after_monitor-InTime none h (some outcome) e = cc
  after_monitor-InTime (some first_failure) h reached e =
      bind_at (PromotedInTime (ok (some first_failure))) (promote env config first_failure) _ h
        (λ outcome p b e.
          subst (PromotedInTime (ok (some first_failure)) _) (ok_injective e)
            (first_failure, refl, promote-InTime first_failure h outcome p))
        reached e

  -- The history when the monitoring loop of a run begins.
  abbrev pub monitoring : History → History
  monitoring h =
      emitted "monitoring" (
        dict (
          ("armed", bool config.armed)
          ∷ ("witnessCount", num (length config.active_health_urls))
          ∷ []))
      ∷ h

  -- If the run returns an outcome, then its monitoring loop left with the time of a first failure, its
  -- history ends with a look at the clock and the note of that outcome, and the outcome is the report of a
  -- promotion whose time, what the clock told then less the time of the first failure, is at most the
  -- configured recovery time.
  pub run-InTime :
      (fuel : ℕ) (h : History) (outcome : Fields)
      → (run env config fuel h).0 ≡ ok (some outcome)
      → (first_failure : ℕ) × ((monitor env config fuel 0 0 0 (monitoring h)).0
          ≡ ok (some first_failure))
        × InTime first_failure (run env config fuel h).1 outcome
  unfolding run emit ◌>>=◌
  run-InTime fuel h outcome e =
      bind_at (PromotedInTime (monitor env config fuel 0 0 0 (monitoring h)).0)
        (monitor env config fuel 0 0 0) (after_monitor env config) (monitoring h)
        (λ reached p b q.
          subst
            (λ r.
              PromotedInTime r
                (after_monitor env config reached
                  (monitor env config fuel 0 0 0 (monitoring h)).1).1
                b)
            (sym p) (after_monitor-InTime reached _ b q))
        (some outcome) e
