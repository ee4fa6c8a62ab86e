-- ===== src/Base/Machine/Ran.antt =====
-- What the parts of an action did that returned, each in the world that the one before it left.
use zkdeal_cloud_deployer_in.Base.{Bool, ap, false, refl, sym, true, ◌∙◌, ◌≡◌}
use zkdeal_cloud_deployer_in.Base.Machine.{Action, bind-Passed, lift, pure, require, ◌>>=◌, ◌>>◌}
use zkdeal_cloud_deployer_in.Base.Outcome.{Outcome, err, err-ne-ok, ok, ok_injective}

-- An action that ran from `w` to `v` and returned `a`.
abbrev pub Ran : {E W A : Type 0} → Action E W A → W → A → W → Type 0
Ran m w a v = m w ≡ (ok a, v)

-- What follows a part may use that it ran, and that the rest runs from where it ended.
module _ {E W A : Type 0} {G : Type 0} where
  pub bind-Ran :
      {B : Type 0} (m : Action E W A) (f : A → Action E W B) (w : W) (b : B) (v : W)
      → Ran (m >>= f) w b v
      → ((a : A) (u : W) → Ran m w a u → Ran (f a) u b v → G)
      → G
  bind-Ran m f w b v h k =
      let passed = bind-Passed m f w b (ap (λ r. r.0) h) in
      k passed.value (m w).1 (ap (λ r. (r, (m w).1)) passed.first) (sym passed.world ∙ h)

  pub lift-Ran :
      {B : Type 0} (r : Outcome E A) (f : A → Action E W B) (w : W) (b : B) (v : W)
      → Ran (lift r >>= f) w b v
      → ((a : A) → r ≡ ok a → Ran (f a) w b v → G)
      → G
  unfolding ◌>>=◌
  lift-Ran (ok a) f w b v h k = k a refl h
  lift-Ran (err e) f w b v h k = absurd (err-ne-ok (ap (λ r. r.0) h))

  pub require-Ran :
      (test : Bool) (fault : E) (m : Action E W A) (w : W) (a : A) (v : W)
      → Ran (require test fault >> m) w a v
      → (test ≡ true → Ran m w a v → G)
      → G
  unfolding ◌>>=◌
  require-Ran true fault m w a v h k = k refl h
  require-Ran false fault m w a v h k = absurd (err-ne-ok (ap (λ r. r.0) h))

  pub pure-Ran : (a b : A) (w v : W) → Ran (pure {E = E} a) w b v → (a ≡ b → w ≡ v → G) → G
  unfolding pure
  pure-Ran a b w v h k = k (ok_injective (ap (λ r. r.0) h)) (ap (λ r. r.1) h)
