-- ===== src/Promotion/Window.antt =====
-- scripts/promotion_controller.py: the number of rounds of the monitoring loop.
use zkdeal_cloud_deployer_in.Base.{
  Bool, List, Option, String, [], arith, false, leb, ltb, refl, subst, suc, true, zero, ℕ, ◌&&◌,
  ◌+◌, ◌<◌, ◌∷◌, ◌≡◌, ◌≢◌, ◌≤◌,
}
use zkdeal_cloud_deployer_in.Base.Json.{Fields, null, obj}
use zkdeal_cloud_deployer_in.Promotion.Model.{
  Action, Body, Config, History, Refusal, Reply, Result, Surroundings, after, answered, check,
  continue, emit, err, failed, http_status, json, malformed, max_response_bytes, monotonic,
  object_of, ok, out_of_fuel, pure, read_reply, refused, response_too_large, undecodable,
  value_error, ◌>>=◌,
}
use zkdeal_cloud_deployer_in.Promotion.Monitor.{
  cycle_end, end_cycle, failure_start, get_request, judge, monitor, threshold_reached, window_over,
  witness, witnesses,
}

-- An outcome that is not the end of the fuel.
abbrev pub Ended {ℓ} : {A : Type ℓ} → Result A → Type 0
Ended (err out_of_fuel) = ⊥
Ended (err (refused refusal)) = Unit
Ended (err value_error) = Unit
Ended (ok a) = Unit

object_of-Ended : (body : Body) → Ended (object_of body)
object_of-Ended (json (obj fields)) = tt
object_of-Ended (json null) = tt
object_of-Ended (json _) = tt
object_of-Ended malformed = tt
object_of-Ended undecodable = tt

after-Ended {ℓ} :
    {A : Type ℓ} (test : Bool) (refusal : Refusal) (rest : Result A)
    → Ended rest
    → Ended (after (check test refusal) rest)
after-Ended true refusal rest e = e
after-Ended false refusal rest e = tt

read_reply-Ended : (reply : Reply) → Ended (read_reply reply)
unfolding read_reply
read_reply-Ended failed = tt
read_reply-Ended (answered status size body) =
    let small = check (leb 200 status && ltb status 300) http_status in
    after-Ended (leb size max_response_bytes) response_too_large (after small (object_of body)) (
      after-Ended (leb 200 status && ltb status 300) http_status (object_of body)
        (object_of-Ended body))

judge-Ended : (active_id : String) (r : Result Fields) → Ended r → Ended (judge active_id r)
unfolding judge
judge-Ended active_id (ok value) e = tt
judge-Ended active_id (err (refused refusal)) e = tt
judge-Ended active_id (err value_error) e = tt
judge-Ended active_id (err out_of_fuel) e = e

module _ {ℓ κ} {A : Type ℓ} {B : Type κ} where
  continue-Ended :
      (f : A → Action B) (r : Result A) (h : History)
      → Ended r
      → ((a : A) (k : History) → Ended (f a k).0)
      → Ended (continue r f h).0
  continue-Ended f (ok a) h e k = k a h
  continue-Ended f (err (refused refusal)) h e k = tt
  continue-Ended f (err value_error) h e k = tt
  continue-Ended f (err out_of_fuel) h e k = e

module _ (env : Surroundings) (config : Config) where
  witnesses-Ended :
      (urls : List String) (a b : ℕ) (h : History) → Ended (witnesses env config urls a b h).0
  unfolding witnesses ◌>>=◌ witness
  witnesses-Ended [] a b h = tt
  witnesses-Ended (url ∷ rest) a b h =
      continue-Ended _ _ _
        (judge-Ended config.active_coordinator_id _
          (read_reply-Ended (env.open_url h (get_request url))))
        (λ up k. witnesses-Ended rest _ _ k)

  -- The next cycle ends if the window is not over.
  abbrev NextEnds : ℕ → (ℕ → ℕ → Action (Option ℕ)) → Type 0
  NextEnds cycle again =
      window_over env config cycle ≡ false → (n t : ℕ) (h : History) → Ended (again n t h).0

  end_cycle-Ended :
      (over : Bool) (rest : Action (Option ℕ)) (h : History)
      → (over ≡ false → (k : History) → Ended (rest k).0)
      → Ended (end_cycle env config over rest h).0
  unfolding end_cycle ◌>>=◌ emit
  end_cycle-Ended true rest h k = tt
  end_cycle-Ended false rest h k = k refl _

  threshold-Ended :
      (b : Bool) (t : ℕ) (rest : Action (Option ℕ)) (h : History)
      → Ended (rest h).0
      → Ended (threshold_reached env config b t rest h).0
  unfolding threshold_reached pure
  threshold-Ended true t rest h e = tt
  threshold-Ended false t rest h e = e

  cycle_end-Ended :
      (cycle n first_failure : ℕ) (counts : ℕ × ℕ) (again : ℕ → ℕ → Action (Option ℕ)) (h : History)
      → NextEnds cycle again
      → Ended (cycle_end env config cycle n first_failure counts again h).0
  unfolding cycle_end ◌>>=◌ emit failure_start monotonic
  cycle_end-Ended cycle n first_failure (suc healthy, lost) again h k =
      end_cycle-Ended _ _ _ (λ over. k over 0 0)
  cycle_end-Ended cycle zero first_failure (zero, lost) again h k =
      threshold-Ended _ _ _ _ (end_cycle-Ended _ _ _ (λ over. k over _ _))
  cycle_end-Ended cycle (suc n) first_failure (zero, lost) again h k =
      threshold-Ended _ _ _ _ (end_cycle-Ended _ _ _ (λ over. k over _ _))

  still_open :
      (cycle : ℕ)
      → 0 < config.max_monitor_cycles
      → window_over env config cycle ≡ false
      → cycle < config.max_monitor_cycles
  still_open cycle bounded over = ground arith

  monitor-Ended :
      (fuel cycle n first_failure : ℕ) (h : History)
      → cycle < config.max_monitor_cycles
      → config.max_monitor_cycles ≤ fuel + cycle
      → Ended (monitor env config fuel cycle n first_failure h).0
  unfolding monitor ◌>>=◌
  monitor-Ended zero cycle n first_failure h p q = absurd (omega arith)
  monitor-Ended (suc fuel) cycle n first_failure h p q =
      continue-Ended _ _ _ (witnesses-Ended config.active_health_urls 0 0 h) λ counts k.
        cycle_end-Ended (cycle + 1) n first_failure counts _ k λ over m t l.
          monitor-Ended fuel (cycle + 1) m t l (still_open (cycle + 1) (omega arith) over)
            (omega arith)

  -- With a bounded window, as many rounds as the window has cycles are enough fuel for the monitoring
  -- loop: it leaves by its threshold, by its window or by an exception of the source.
  pub monitor_enough_fuel :
      (fuel : ℕ) (h : History)
      → 0 < config.max_monitor_cycles
      → config.max_monitor_cycles ≤ fuel
      → (monitor env config fuel 0 0 0 h).0 ≢ err out_of_fuel
  monitor_enough_fuel fuel h bounded enough e =
      subst Ended e (monitor-Ended fuel 0 0 0 h bounded (omega arith))
