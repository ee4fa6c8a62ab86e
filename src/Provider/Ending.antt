-- ===== src/Provider/Ending.antt =====
-- failover-provider/provider.py: the rounds of its loops, with a clock that goes on.
pub mod Probing
pub mod DockerDriver
pub mod KubernetesDriver
pub mod Methods
use zkdeal_cloud_deployer_in.Base.{
  Bool, Option, String, arith, false, none, refl, some, subst, sym, true, ℕ, ◌+◌, ◌∷◌, ◌≡◌, ◌≤◌,
}
use zkdeal_cloud_deployer_in.Base.Json.{Json}
use zkdeal_cloud_deployer_in.Provider.Model.{
  Action, Event, History, Result, Surroundings, World, continue, err, gets, note, ok, or_missing,
  out_of_fuel, provider_error, pure, raise, require, save, saved, slept, unexpected, value_error,
  when, ◌>>=◌, ◌>>◌,
}

-- An outcome that is not the end of the fuel.
abbrev pub Ended {ℓ} : {A : Type ℓ} → Result A → Type 0
Ended (err out_of_fuel) = ⊥
Ended (err (provider_error status code)) = Unit
Ended (err value_error) = Unit
Ended (err unexpected) = Unit
Ended (ok a) = Unit

-- The monotonic clock never goes back, a sleep of a second takes at least that, and `int` raises none
-- of the model's own errors.
pub record Paced (env : Surroundings) : Type 0 where
  pub goes_on : (h : History) (e : Event) → env.monotonic h ≤ env.monotonic (e ∷ h)
  pub sleeps : (h : History) → env.monotonic h + 1000 ≤ env.monotonic (slept ∷ h)
  pub converts : (value : Json) → Ended (env.int_of value)

pub le_trans : {a b c : ℕ} → a ≤ b → b ≤ c → a ≤ c
le_trans p q = omega arith

pub same_time : (n : ℕ) → n ≤ n
same_time n = omega arith

-- `m` does not run out of fuel, and the clock goes on meanwhile.
pub record Ends {ℓ} (env : Surroundings) {A : Type ℓ} (m : Action A) : Type ℓ where
  pub ends : (w : World) → Ended (m w).0
  pub later : (w : World) → env.monotonic w.history ≤ env.monotonic (m w).1.history

module _ {env : Surroundings} where
  module _ {ℓ κ} {A : Type ℓ} {B : Type κ} where
    continue-Ended :
        (f : A → Action B)
        → ((a : A) → Ends env (f a))
        → (r : Result A) (w : World) → Ended r
        → Ended (continue r f w).0
    continue-Ended f kf (ok a) w e = (kf a).ends w
    continue-Ended f kf (err (provider_error status code)) w e = tt
    continue-Ended f kf (err value_error) w e = tt
    continue-Ended f kf (err unexpected) w e = tt
    continue-Ended f kf (err out_of_fuel) w e = e

    continue_later :
        (f : A → Action B)
        → ((a : A) → Ends env (f a))
        → (r : Result A) (w : World)
        → env.monotonic w.history ≤ env.monotonic (continue r f w).1.history
    continue_later f kf (ok a) w = (kf a).later w
    continue_later f kf (err e) w = omega arith

    pub Ends-bind :
        (m : Action A) (f : A → Action B)
        → Ends env m
        → ((a : A) → Ends env (f a))
        → Ends env (m >>= f)
    unfolding ◌>>=◌
    Ends-bind m f km kf = record {
      ends = λ w. continue-Ended f kf (m w).0 (m w).1 (km.ends w);
      later = λ w. le_trans (km.later w) (continue_later f kf (m w).0 (m w).1);
    }

    pub Ends-then : (m : Action A) (k : Action B) → Ends env m → Ends env k → Ends env (m >> k)
    Ends-then m k km kk = Ends-bind m (λ a. k) km (λ a. kk)

  module _ {ℓ} {A : Type ℓ} where
    pub Ends-still :
        (m : Action A)
        → ((w : World) → Ended (m w).0)
        → ((w : World) → (m w).1.history ≡ w.history)
        → Ends env m
    Ends-still m e s = record {
      ends = e;
      later = λ w.
          subst (λ h. env.monotonic w.history ≤ env.monotonic h) (sym (s w))
            (same_time (env.monotonic w.history));
    }

    pub Ends-pure : (a : A) → Ends env (pure a)
    unfolding pure
    Ends-pure a = Ends-still _ (λ w. tt) (λ w. refl)

    pub Ends-gets : (f : World → A) → Ends env (gets f)
    unfolding gets
    Ends-gets f = Ends-still _ (λ w. tt) (λ w. refl)

    pub Ends-raise :
        (status : ℕ) (code : String) → Ends env (raise {A = A} (provider_error status code))
    unfolding raise
    Ends-raise status code = Ends-still _ (λ w. tt) (λ w. refl)

    pub Ends-raise_unexpected : Ends env (raise {A = A} unexpected)
    unfolding raise
    Ends-raise_unexpected = Ends-still _ (λ w. tt) (λ w. refl)

    pub Ends-raise_value : Ends env (raise {A = A} value_error)
    unfolding raise
    Ends-raise_value = Ends-still _ (λ w. tt) (λ w. refl)

    pub Ends-or_missing :
        (o : Option A) (status : ℕ) (code : String)
        → Ends env (or_missing o (provider_error status code))
    unfolding or_missing
    Ends-or_missing none status code = Ends-still _ (λ w. tt) (λ w. refl)
    Ends-or_missing (some a) status code = Ends-still _ (λ w. tt) (λ w. refl)

    pub Ends-or_unexpected : (o : Option A) → Ends env (or_missing o unexpected)
    unfolding or_missing
    Ends-or_unexpected none = Ends-still _ (λ w. tt) (λ w. refl)
    Ends-or_unexpected (some a) = Ends-still _ (λ w. tt) (λ w. refl)

  pub Ends-require :
      (test : Bool) (status : ℕ) (code : String)
      → Ends env (require test (provider_error status code))
  unfolding require
  Ends-require true status code = Ends-still _ (λ w. tt) (λ w. refl)
  Ends-require false status code = Ends-still _ (λ w. tt) (λ w. refl)

  pub Ends-when : (test : Bool) (m : Action (Unit {0})) → Ends env m → Ends env (when test m)
  unfolding when
  Ends-when true m km = record { ends = km.ends; later = km.later }
  Ends-when false m km = Ends-still _ (λ w. tt) (λ w. refl)

  module _ (paced : Paced env) where
    pub Ends-note : (e : Event) → Ends env (note e)
    unfolding note
    Ends-note e = record { ends = λ w. tt; later = λ w. paced.goes_on w.history e }

    pub Ends-save : Ends env save
    unfolding save
    Ends-save = record { ends = λ w. tt; later = λ w. paced.goes_on w.history (saved w.operations) }

pub ruleset ends_rules = (
  Ends-bind, Ends-then, Ends-pure, Ends-gets, Ends-raise, Ends-raise_unexpected, Ends-raise_value,
  Ends-or_missing, Ends-or_unexpected, Ends-require, Ends-when, Ends-note, Ends-save,
)
