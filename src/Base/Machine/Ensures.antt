-- ===== src/Base/Machine/Ensures.antt =====
-- What the values that actions return satisfy, wherever they start: one rule for each way to build one.
use mathlib.Core.Path.{◌≡◌, subst}
use zkdeal_cloud_deployer_in.Base.Machine.{Action, bind-Passed, pure, ◌>>=◌, ◌>>◌}
use zkdeal_cloud_deployer_in.Base.Outcome.{ok, ok_injective}

pub record Ensures {E W A : Type 0} (Q : A → Type 0) (m : Action E W A) : Type 0 where
  pub at : (w : W) (a : A) → (m w).0 ≡ ok a → Q a

module _ {E W A B : Type 0} {Q : B → Type 0} where
  pub Ensures-bind :
      (m : Action E W A) (f : A → Action E W B) → ((a : A) → Ensures Q (f a)) → Ensures Q (m >>= f)
  Ensures-bind m f ef = record {
    at =
        λ w b h. let passed = bind-Passed m f w b h in (ef passed.value).at (m w).1 b passed.second;
  }

  pub Ensures-then : (m : Action E W A) (k : Action E W B) → Ensures Q k → Ensures Q (m >> k)
  Ensures-then m k ek = Ensures-bind m (λ a. k) (λ a. ek)

pub Ensures-pure :
    {E W A : Type 0} {Q : A → Type 0} (a : A) → Q a → Ensures Q (pure {E = E} {W = W} a)
unfolding pure
Ensures-pure {Q = Q} a q = record { at = λ w b h. subst Q (ok_injective h) q }

pub ruleset ensures_rules = (Ensures-bind, Ensures-then, Ensures-pure)
