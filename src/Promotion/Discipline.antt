-- ===== src/Promotion/Discipline.antt =====
-- scripts/promotion_controller.py: which POST requests a run sends, and in which order.
pub mod Order
use zkdeal_cloud_deployer_in.Base.{
  Bool, List, Option, String, [], false, refl, suc, true, zero, ℕ, ◌+◌, ◌∙◌, ◌∷◌, ◌≡◌,
}
use zkdeal_cloud_deployer_in.Base.Json.{Fields}
use zkdeal_cloud_deployer_in.Promotion.Model.{
  Action, Config, Fault, History, Method, Request, Result, Surroundings, asked, continue, emit,
  emitted, err, get_method, lift, looked_at_clock, monotonic, note, ok, post_method, pure, raise,
  slept, ◌>>=◌,
}
use zkdeal_cloud_deployer_in.Promotion.Monitor.{
  cycle_end, end_cycle, failure_start, monitor, threshold_reached, witness, witnesses,
}

abbrev pub add_post : Method → Request → List Request → List Request
add_post get_method r rest = rest
add_post post_method r rest = r ∷ rest

-- The POST requests of a history, the newest first.
abbrev pub posts : History → List Request
posts [] = []
posts (asked r ∷ h) = add_post r.method r (posts h)
posts (emitted status fields ∷ h) = posts h
posts (looked_at_clock ∷ h) = posts h
posts (slept ∷ h) = posts h

-- `m` sends no POST request.
pub record NoPosts {ℓ} {A : Type ℓ} (m : Action A) : Type ℓ where
  pub at : (h : History) → posts (m h).1 ≡ posts h

module _ {ℓ κ} {A : Type ℓ} {B : Type κ} where
  continue-NoPosts :
      (f : A → Action B)
      → ((a : A) → NoPosts (f a))
      → (r : Result A) (h : History) → posts (continue r f h).1 ≡ posts h
  continue-NoPosts f kf (ok a) h = (kf a).at h
  continue-NoPosts f kf (err e) h = refl

  pub NoPosts-bind :
      (m : Action A) (f : A → Action B) → NoPosts m → ((a : A) → NoPosts (f a)) → NoPosts (m >>= f)
  unfolding ◌>>=◌
  NoPosts-bind m f km kf = record { at = λ h. continue-NoPosts f kf (m h).0 (m h).1 ∙ km.at h }

module _ {ℓ} {A : Type ℓ} where
  NoPosts-pure : (a : A) → NoPosts (pure a)
  unfolding pure
  NoPosts-pure a = record { at = λ h. refl }

  NoPosts-raise : (e : Fault) → NoPosts (raise {A = A} e)
  unfolding raise
  NoPosts-raise e = record { at = λ h. refl }

  pub NoPosts-lift : (r : Result A) → NoPosts (lift r)
  unfolding lift
  NoPosts-lift r = record { at = λ h. refl }

pub NoPosts-emit : (status : String) (fields : Fields) → NoPosts (emit status fields)
unfolding emit
NoPosts-emit status fields = record { at = λ h. refl }

NoPosts-slept : NoPosts (note slept)
unfolding note
NoPosts-slept = record { at = λ h. refl }

ruleset quiet =
    (NoPosts-bind, NoPosts-pure, NoPosts-raise, NoPosts-lift, NoPosts-emit, NoPosts-slept)

module _ (env : Surroundings) (config : Config) where
  pub NoPosts-monotonic : NoPosts (monotonic env)
  unfolding monotonic
  NoPosts-monotonic = record { at = λ h. refl }

  witness-NoPosts : (url : String) → NoPosts (witness env config url)
  unfolding witness
  witness-NoPosts url = record { at = λ h. refl }

  witnesses-NoPosts : (urls : List String) (a b : ℕ) → NoPosts (witnesses env config urls a b)
  unfolding witnesses
  witnesses-NoPosts [] a b = NoPosts-pure _
  witnesses-NoPosts (url ∷ rest) a b =
      NoPosts-bind _ _ (witness-NoPosts url) λ up. witnesses-NoPosts rest _ _

  end_cycle-NoPosts :
      (over : Bool) (rest : Action (Option ℕ))
      → NoPosts rest
      → NoPosts (end_cycle env config over rest)
  unfolding end_cycle
  end_cycle-NoPosts true rest k = search quiet
  end_cycle-NoPosts false rest k = NoPosts-bind _ _ NoPosts-slept λ u. k

  threshold_reached-NoPosts :
      (b : Bool) (n : ℕ) (rest : Action (Option ℕ))
      → NoPosts rest
      → NoPosts (threshold_reached env config b n rest)
  unfolding threshold_reached
  threshold_reached-NoPosts true n rest k = NoPosts-pure _
  threshold_reached-NoPosts false n rest k = k

  failure_start-NoPosts : (n first_failure : ℕ) → NoPosts (failure_start env config n first_failure)
  unfolding failure_start
  failure_start-NoPosts zero first_failure = NoPosts-monotonic
  failure_start-NoPosts (suc n) first_failure = NoPosts-pure _

  cycle_end-NoPosts :
      (cycle consecutive first_failure : ℕ) (counts : ℕ × ℕ) (again : ℕ → ℕ → Action (Option ℕ))
      → ((n t : ℕ) → NoPosts (again n t))
      → NoPosts (cycle_end env config cycle consecutive first_failure counts again)
  unfolding cycle_end
  cycle_end-NoPosts cycle consecutive first_failure (suc healthy, lost) again k =
      NoPosts-bind _ _ (NoPosts-emit _ _) λ u. end_cycle-NoPosts _ _ (k 0 0)
  cycle_end-NoPosts cycle consecutive first_failure (zero, lost) again k =
      NoPosts-bind _ _ (failure_start-NoPosts consecutive first_failure) λ begun.
        NoPosts-bind _ _ (NoPosts-emit _ _)
          λ u. threshold_reached-NoPosts _ _ _ (end_cycle-NoPosts _ _ (k _ _))

  pub monitor-NoPosts :
      (fuel cycle consecutive first_failure : ℕ)
      → NoPosts (monitor env config fuel cycle consecutive first_failure)
  unfolding monitor
  monitor-NoPosts zero cycle consecutive first_failure = NoPosts-raise _
  monitor-NoPosts (suc fuel) cycle consecutive first_failure =
      NoPosts-bind _ _ (witnesses-NoPosts config.active_health_urls 0 0) λ counts.
        cycle_end-NoPosts (cycle + 1) consecutive first_failure counts _
          (monitor-NoPosts fuel (cycle + 1))
