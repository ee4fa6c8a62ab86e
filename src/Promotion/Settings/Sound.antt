-- ===== src/Promotion/Settings/Sound.antt =====
-- scripts/promotion_controller.py: what every configuration that is read from the environment has.
use zkdeal_cloud_deployer_in.Base.{
  Bool, List, Option, String, arith, false, if◌then◌else◌, ltb, none, not, refl, some, subst, true,
  within, ℕ, ◌==◌, ◌≡◌, ◌≤◌,
}
use zkdeal_cloud_deployer_in.Base.Lists.{length}
use zkdeal_cloud_deployer_in.Base.Text.{codes, is_safe_id}
use zkdeal_cloud_deployer_in.Base.Json.{negsuc, pos, ℤ}
use zkdeal_cloud_deployer_in.Promotion.Settings.{
  Environment, Read, SettingFault, bad, demand, good, in_range, integer, invalid_setting,
  long_enough, secret, ◌>>=◌,
}
use zkdeal_cloud_deployer_in.Promotion.Model.{Config}
use zkdeal_cloud_deployer_in.Promotion.Settings.FromEnvironment.{
  from_environment, read_id, read_witnesses,
}

pub record Sound (config : Config) : Type 0 where
  pub witnesses : 2 ≤ length config.active_health_urls
  pub active : is_safe_id config.active_coordinator_id ≡ true
  pub standby : is_safe_id config.standby_coordinator_id ≡ true
  pub candidate : is_safe_id config.candidate_id ≡ true
  pub other_standby : (config.active_coordinator_id == config.standby_coordinator_id) ≡ false
  pub provider_token : 16 ≤ length (codes config.provider_token)
  pub approval_token : 16 ≤ length (codes config.approval_token)
  pub principal_token : 16 ≤ length (codes config.principal_token)
  pub threshold : (3 ≤ config.failure_threshold) × (config.failure_threshold ≤ 20)
  pub cycles : config.max_monitor_cycles ≤ 1_000_000
  pub recovery : (30 ≤ config.max_rto_seconds) × (config.max_rto_seconds ≤ 300)
  pub age : (1 ≤ config.max_checkpoint_age_seconds) × (config.max_checkpoint_age_seconds ≤ 300)

pub good_injective : {A : Type 0} {a b : A} → good a ≡ good b → a ≡ b
good_injective e = cc

pub bad-ne-good : {A : Type 0} {fault : SettingFault} {a : A} → bad fault ≡ good a → ⊥
bad-ne-good e = cc

-- A value that is read through `m` is read from a value of `m`.
pub read_first :
    {A B : Type 0} (m : Read A) (f : A → Read B) (b : B)
    → (m >>= f) ≡ good b
    → (a : A) × (m ≡ good a) × (f a ≡ good b)
unfolding ◌>>=◌
read_first (good a) f b e = (a, refl, e)
read_first (bad fault) f b e = absurd (bad-ne-good e)

pub demanded :
    (test : Bool) (name : String) (u : Unit {0}) → demand test name ≡ good u → test ≡ true
unfolding demand
demanded true name u e = refl
demanded false name u e = absurd (bad-ne-good e)

pub low_enough :
    (n minimum maximum : ℕ) → within minimum n maximum ≡ true → (minimum ≤ n) × (n ≤ maximum)
low_enough n minimum maximum e = ground arith

pub not-true : (b : Bool) → not b ≡ true → b ≡ false
not-true b e = ground arith

pub not_below : (a b : ℕ) → ltb a b ≡ false → b ≤ a
not_below a b e = ground arith

module _ (env : Environment) where
  in_range-within :
      (value : ℤ) (minimum maximum : ℕ) (name : String) (n : ℕ)
      → in_range env value minimum maximum name ≡ good n
      → (minimum ≤ n) × (n ≤ maximum)
  unfolding in_range
  in_range-within (negsuc m) minimum maximum name n e = absurd (bad-ne-good e)
  in_range-within (pos m) minimum maximum name n e = chosen (within minimum m maximum) refl e
    where
      chosen :
          (b : Bool)
          → within minimum m maximum ≡ b
          → (if b then good m else bad (invalid_setting name)) ≡ good n
          → (minimum ≤ n) × (n ≤ maximum)
      chosen true q e =
          subst (λ k. (minimum ≤ k) × (k ≤ maximum)) (good_injective e)
            (low_enough m minimum maximum q)
      chosen false q e = absurd (bad-ne-good e)

  pub integer-within :
      (name : String) (default minimum maximum n : ℕ)
      → integer env name default minimum maximum ≡ good n
      → (minimum ≤ n) × (n ≤ maximum)
  unfolding integer
  integer-within name default minimum maximum n e =
      let (value, p, q) = read_first _ _ _ e in in_range-within value minimum maximum name n q

  long_enough-length :
      (content : Option String) (name s : String)
      → long_enough env content name ≡ good s
      → 16 ≤ length (codes s)
  unfolding long_enough
  long_enough-length none name s e = absurd (bad-ne-good e)
  long_enough-length (some t) name s e = chosen (ltb (length (codes t)) 16) refl e
    where
      chosen :
          (b : Bool)
          → ltb (length (codes t)) 16 ≡ b
          → (if b then bad (invalid_setting name) else good t) ≡ good s
          → 16 ≤ length (codes s)
      chosen true q e = absurd (bad-ne-good e)
      chosen false q e = subst (λ x. 16 ≤ length (codes x)) (good_injective e) (not_below _ _ q)

  secret-length : (name s : String) → secret env name ≡ good s → 16 ≤ length (codes s)
  unfolding secret
  secret-length name s e =
      let (u, p1, e1) = read_first _ _ _ e in
      let (content, p2, e2) = read_first _ _ _ e1 in long_enough-length content name s e2

  read_id-safe : (name s : String) → read_id env name ≡ good s → is_safe_id s ≡ true
  unfolding read_id
  read_id-safe name s e =
      let (u, p, q) = read_first _ _ _ e in
      subst (λ x. is_safe_id x ≡ true) (good_injective q) (demanded _ _ u p)

  read_witnesses-length :
      (allow_http : Bool) (urls : List String)
      → read_witnesses env allow_http ≡ good urls
      → 2 ≤ length urls
  unfolding read_witnesses
  read_witnesses-length allow_http urls e =
      let (found, p1, e1) = read_first _ _ _ e in
      let (u, p2, e2) = read_first _ _ _ e1 in
      let (ids, p3, e3) = read_first _ _ _ e2 in
      let (v, p4, e4) = read_first _ _ _ e3 in
      subst (λ x. 2 ≤ length x) (good_injective e4) (not_below _ _ (not-true _ (demanded _ _ u p2)))

  -- A configuration that is read from the environment has at least two witnesses, safe identities of
  -- which the active and the standby one differ, secrets of at least 16 characters, a threshold of 3
  -- to 20 cycles, and bounds on the monitoring window, the recovery time and the checkpoint's age.
  pub from_environment-Sound : (config : Config) → from_environment env ≡ good config → Sound config
  unfolding from_environment
  from_environment-Sound config e =
      let (urls, p1, e1) = read_first _ _ _ e in
      let (active_id, p2, e2) = read_first _ _ _ e1 in
      let (standby_id, p3, e3) = read_first _ _ _ e2 in
      let (candidate, p4, e4) = read_first _ _ _ e3 in
      let (differ, p5, e5) = read_first _ _ _ e4 in
      let (standby_url, p6, e6) = read_first _ _ _ e5 in
      let (provider_url, p7, e7) = read_first _ _ _ e6 in
      let (endpoint, p8, e8) = read_first _ _ _ e7 in
      let (provider, p9, e9) = read_first _ _ _ e8 in
      let (approval, p10, e10) = read_first _ _ _ e9 in
      let (principal, p11, e11) = read_first _ _ _ e10 in
      let (threshold, p12, e12) = read_first _ _ _ e11 in
      let (poll, p13, e13) = read_first _ _ _ e12 in
      let (cycles, p14, e14) = read_first _ _ _ e13 in
      let (rto, p15, e15) = read_first _ _ _ e14 in
      let (age, p16, e16) = read_first _ _ _ e15 in
      let (timeout, p17, e17) = read_first _ _ _ e16 in
      subst Sound (good_injective e17) (record {
        witnesses = read_witnesses-length _ urls p1;
        active = read_id-safe _ active_id p2;
        standby = read_id-safe _ standby_id p3;
        candidate = read_id-safe _ candidate p4;
        other_standby = not-true _ (demanded _ _ differ p5);
        provider_token = secret-length _ provider p9;
        approval_token = secret-length _ approval p10;
        principal_token = secret-length _ principal p11;
        threshold = integer-within _ _ _ _ threshold p12;
        cycles = (integer-within _ _ _ _ cycles p14).1;
        recovery = integer-within _ _ _ _ rto p15;
        age = integer-within _ _ _ _ age p16;
      })
