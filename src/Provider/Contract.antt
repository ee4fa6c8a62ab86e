-- ===== src/Provider/Contract.antt =====
-- The prepare responses of the drivers of failover-provider/provider.py.
pub mod Lawful
pub mod Committed
use zkdeal_cloud_deployer_in.Base.{
  Bool, Option, String, ap, false, if◌then◌else◌, leb, leb→le, ltb, none, refl, some, suc, true,
  zero, ℕ, ◌≡◌, ◌≤◌,
}
use zkdeal_cloud_deployer_in.Base.Text.{parse_lsn}
use zkdeal_cloud_deployer_in.Base.Json.{Fields, Json}
use zkdeal_cloud_deployer_in.Provider.Model.{
  Action, Surroundings, World, ok, or_missing, out_of_fuel, provider_error, text_or_none,
}
use zkdeal_cloud_deployer_in.Provider.Probes.{
  Config, lsn_value, poll, poll_for, unless_found, while_in_time,
}
use zkdeal_cloud_deployer_in.Provider.Rules.{
  Gives, Gives-bind, Gives-pure, Gives-raise, Gives-then, err-ne-ok, ok_injective,
}
use zkdeal_cloud_deployer_in.Provider.Docker.{caught_up, compare_replay, ready_response}
use zkdeal_cloud_deployer_in.Provider.Docker
use zkdeal_cloud_deployer_in.Provider.Kubernetes

-- The standby has replayed the target.
pub record Replayed (target replay : String) : Type 0 where
  pub wanted : ℕ
  pub reached : ℕ
  pub wanted_lsn : parse_lsn target ≡ some wanted
  pub reached_lsn : parse_lsn replay ≡ some reached
  pub at_or_after : wanted ≤ reached

-- What a driver answers for a candidate. A target that was captured before is used again.
pub record Ready (candidate : Json) (existing : Option String) (response : Fields) : Type 0 where
  pub target : String
  pub replay : String
  pub is_response : response ≡ ready_response candidate target replay
  pub replayed : Replayed target replay
  pub kept : (t : String) → existing ≡ some t → target ≡ t

-- A round that ends the loop has seen the target replayed.
abbrev pub Caught : String → Option String → Type 0
Caught target none = Unit
Caught target (some replay) = Replayed target replay

lsn_value-Gives : (value : String) → Gives (λ n. parse_lsn value ≡ some n) (lsn_value value)
unfolding lsn_value or_missing
lsn_value-Gives value = record { at = λ w n h. found (parse_lsn value) w n h }
  where
    found :
        (o : Option ℕ) (w : World) (n : ℕ)
        → (or_missing o (provider_error 503 "invalid-lsn") w).0 ≡ ok n
        → o ≡ some n
    found none w n h = absurd (err-ne-ok h)
    found (some m) w n h = ap some (ok_injective h)

judged :
    (target replay : String) (reached wanted : ℕ) (b : Bool)
    → leb wanted reached ≡ b
    → parse_lsn replay ≡ some reached
    → parse_lsn target ≡ some wanted
    → Caught target (if b then some replay else none)
judged target replay reached wanted false e r t = tt
judged target replay reached wanted true e r t = record {
  wanted = wanted;
  reached = reached;
  wanted_lsn = t;
  reached_lsn = r;
  at_or_after = leb→le wanted reached e;
}

compare_replay-Caught :
    (b : Bool) (target replay : String) → Gives (Caught target) (compare_replay b target replay)
unfolding compare_replay
compare_replay-Caught false target replay = Gives-pure none tt
compare_replay-Caught true target replay = Gives-bind _ _ (lsn_value-Gives replay) λ reached r.
    Gives-bind _ _ (lsn_value-Gives target)
      λ wanted t. Gives-pure _ (judged target replay reached wanted (leb wanted reached) refl r t)

module _ (env : Surroundings) {A : Type 0} (Q : Option A → Type 0) (body : Action (Option A))
    (gives : Gives Q body) (at_none : Q none) where
  unless_found-Gives :
      (found : Option A) (rest : Action (Option A))
      → Q found
      → Gives Q rest
      → Gives Q (unless_found found rest)
  unfolding unless_found
  unless_found-Gives none rest q g = Gives-then _ _ λ u. g
  unless_found-Gives (some a) rest q g = Gives-pure (some a) q

  while_in_time-Gives :
      (b : Bool) (round : Action (Option A)) → Gives Q round → Gives Q (while_in_time b round)
  unfolding while_in_time
  while_in_time-Gives false round g = Gives-pure none at_none
  while_in_time-Gives true round g = g

  poll-Gives : (fuel deadline : ℕ) → Gives Q (poll env fuel deadline body)
  unfolding poll
  poll-Gives zero deadline = Gives-raise out_of_fuel
  poll-Gives (suc fuel) deadline = Gives-then _ _ λ now.
      while_in_time-Gives (ltb now deadline) _
        (Gives-bind _ _ gives λ found q. unless_found-Gives found _ q (poll-Gives fuel deadline))

  pub poll_for-Gives : (seconds : ℕ) → Gives Q (poll_for env seconds body)
  unfolding poll_for
  poll_for-Gives seconds = Gives-then _ _ λ begun. poll-Gives (suc seconds) _

module _ (env : Surroundings) (config : Config) where
  module _ (settings : Docker.Settings) where
    or_stale-Gives :
        (target : String) (o : Option String)
        → Caught target o
        → Gives (Replayed target) (Docker.or_stale settings env o)
    unfolding Docker.or_stale
    or_stale-Gives target none c = Gives-raise _
    or_stale-Gives target (some replay) c = Gives-pure replay c

    await_replay-Gives :
        (target standby_db : String)
        → Gives (Replayed target) (Docker.await_replay settings env config target standby_db)
    unfolding Docker.await_replay Docker.replay_round caught_up
    await_replay-Gives target standby_db =
        Gives-bind _ _
          (poll_for-Gives env (Caught target) _
            (Gives-then _ _
              λ recovery. Gives-then _ _ λ replay. compare_replay-Caught _ target replay)
            tt _)
          (or_stale-Gives target)

    choose_target-Gives :
        (existing : Option String) (checkpoint : String → Action (Unit {0})) (primary : String)
        → Gives
            (λ target. (t : String) → existing ≡ some t → target ≡ t)
            (Docker.choose_target settings env existing checkpoint primary)
    unfolding Docker.choose_target
    choose_target-Gives none checkpoint primary = record { at = λ w a h t e. cc }
    choose_target-Gives (some target) checkpoint primary = Gives-pure target (λ t e. cc)

    -- Every response of the Docker driver's prepare names its candidate, and has a replay position at or
    -- after its target, which is the one captured before if there is one.
    pub docker_prepare-Ready :
        (candidate : Json) (existing : Option String) (checkpoint : String → Action (Unit {0}))
        → Gives
            (Ready candidate (text_or_none existing))
            (Docker.prepare settings env config candidate existing checkpoint)
    unfolding Docker.prepare
    docker_prepare-Ready candidate existing checkpoint = Gives-then _ _ λ active.
        Gives-then _ _ λ standby. Gives-then _ _ λ primary. Gives-then _ _ λ standby_db.
          Gives-then _ _ λ signer. Gives-then _ _ λ u.
            Gives-bind _ _ (choose_target-Gives _ checkpoint primary) λ target kept.
              Gives-bind _ _ (await_replay-Gives target standby_db) λ replay replayed.
                Gives-then _ _ λ v. Gives-pure _ (record {
                  target = target;
                  replay = replay;
                  is_response = refl;
                  replayed = replayed;
                  kept = kept;
                })

  module _ (settings : Kubernetes.Settings) where
    kube_or_stale-Gives :
        (target : String) (o : Option String)
        → Caught target o
        → Gives (Replayed target) (Kubernetes.or_stale settings env o)
    unfolding Kubernetes.or_stale
    kube_or_stale-Gives target none c = Gives-raise _
    kube_or_stale-Gives target (some replay) c = Gives-pure replay c

    kube_await_replay-Gives :
        (target : String)
        → Gives (Replayed target) (Kubernetes.await_replay settings env config target)
    unfolding Kubernetes.await_replay Kubernetes.replay_round caught_up
    kube_await_replay-Gives target =
        Gives-bind _ _
          (poll_for-Gives env (Caught target) _
            (Gives-then _ _
              λ recovery. Gives-then _ _ λ replay. compare_replay-Caught _ target replay)
            tt _)
          (kube_or_stale-Gives target)

    kube_choose_target-Gives :
        (existing : Option String) (checkpoint : String → Action (Unit {0}))
        → Gives
            (λ target. (t : String) → existing ≡ some t → target ≡ t)
            (Kubernetes.choose_target settings env existing checkpoint)
    unfolding Kubernetes.choose_target
    kube_choose_target-Gives none checkpoint = record { at = λ w a h t e. cc }
    kube_choose_target-Gives (some target) checkpoint = Gives-pure target (λ t e. cc)

    -- The same of the Kubernetes driver.
    pub kubernetes_prepare-Ready :
        (candidate : Json) (existing : Option String) (checkpoint : String → Action (Unit {0}))
        → Gives
            (Ready candidate (text_or_none existing))
            (Kubernetes.prepare settings env config candidate existing checkpoint)
    unfolding Kubernetes.prepare
    kubernetes_prepare-Ready candidate existing checkpoint = Gives-then _ _ λ u. Gives-then _ _ λ v.
        Gives-bind _ _ (kube_choose_target-Gives _ checkpoint) λ target kept.
          Gives-bind _ _ (kube_await_replay-Gives target) λ replay replayed. Gives-then _ _ λ x.
            Gives-pure _ (record {
              target = target;
              replay = replay;
              is_response = refl;
              replayed = replayed;
              kept = kept;
            })
