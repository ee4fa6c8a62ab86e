-- ===== src/Promotion/Outage.antt =====
-- scripts/promotion_controller.py: the cycles before the monitoring loop leaves by its threshold.
use zkdeal_cloud_deployer_in.Base.{
  Bool, Option, [], ap, arith, false, leb, leb→le, none, refl, some, subst, suc, sym, true, zero, ℕ,
  ◌+◌, ◌∷◌, ◌≡◌, ◌≤◌,
}
use zkdeal_cloud_deployer_in.Base.Json.{Fields, dict, num}
use zkdeal_cloud_deployer_in.Promotion.Model.{
  Action, Config, Event, Fault, History, Result, Surroundings, continue, emit, emitted, err,
  looked_at_clock, monotonic, ok, out_of_fuel, pure, slept, ◌>>=◌, ◌>>◌,
}
use zkdeal_cloud_deployer_in.Promotion.Monitor.{
  cycle_end, end_cycle, failure_start, monitor, threshold_reached, window_over, witnesses,
}

-- A cycle of the loop, by what its probes found from the history `h`: every witness failed.
abbrev pub AllFailed : Surroundings → Config → History → Type 0
AllFailed env config h =
    (lost : ℕ) × ((witnesses env config config.active_health_urls 0 0 h).0 ≡ ok (0, lost))

-- The history after the probes of a cycle.
abbrev pub after_cycle : Surroundings → Config → History → History
after_cycle env config h = (witnesses env config config.active_health_urls 0 0 h).1

-- What the loop itself does from a cycle that failed to the next one, which asks no witness.
pub data BetweenCycles : Event → Type 0 where
  noted : (fields : Fields) → BetweenCycles (emitted "active-unhealthy" fields)
  timed : BetweenCycles looked_at_clock
  paused : BetweenCycles slept

-- `n` cycles with nothing but that between them, the last that the history holds, found every witness
-- failed. After the first of them the clock told `t`.
pub data Outage (env : Surroundings) (config : Config) : ℕ → ℕ → History → Type 0 where
  none_yet : (t : ℕ) (h : History) → Outage env config 0 t h
  first_failed :
      (h : History)
      → AllFailed env config h
      → Outage env config 1
          (env.monotonic (after_cycle env config h))
          (looked_at_clock ∷ after_cycle env config h)
  next_failed :
      (n t : ℕ) (h : History)
      → Outage env config (suc n) t h
      → AllFailed env config h
      → Outage env config (suc (suc n)) t (after_cycle env config h)
  later :
      (n t : ℕ) (h : History) (e : Event)
      → BetweenCycles e
      → Outage env config (suc n) t h
      → Outage env config (suc n) t (e ∷ h)

some-ne-none : {t : ℕ} → ◌≡◌ {A = Result (Option ℕ)} (ok none) (ok (some t)) → ⊥
some-ne-none h = cc

some_injective : {s t : ℕ} → ◌≡◌ {A = Result (Option ℕ)} (ok (some s)) (ok (some t)) → s ≡ t
some_injective h = cc

suc-plus : (n : ℕ) → suc n ≡ n + 1
suc-plus n = omega arith

module _ (env : Surroundings) (config : Config) where
  -- At least the threshold's number of failed cycles in a row, with the time of the first.
  abbrev pub LongOutage : ℕ → History → Type 0
  LongOutage t h = (n : ℕ) × (config.failure_threshold ≤ suc n) × Outage env config (suc n) t h

  -- A loop that leaves with the time of a first failure leaves after a long outage.
  abbrev LeavesAfter : Action (Option ℕ) → History → Type 0
  LeavesAfter m h = (t : ℕ) → (m h).0 ≡ ok (some t) → LongOutage t (m h).1

  end_cycle-LeavesAfter :
      (over : Bool) (rest : Action (Option ℕ)) (h : History)
      → LeavesAfter rest (slept ∷ h)
      → LeavesAfter (end_cycle env config over rest) h
  unfolding end_cycle ◌>>=◌ emit
  end_cycle-LeavesAfter true rest h k t e = absurd (some-ne-none e)
  end_cycle-LeavesAfter false rest h k t e = k t e

  threshold-LeavesAfter :
      (b : Bool) (n begun : ℕ) (rest : Action (Option ℕ)) (h : History)
      → leb config.failure_threshold (n + 1) ≡ b
      → Outage env config (suc n) begun h
      → LeavesAfter rest h
      → LeavesAfter (threshold_reached env config b begun rest) h
  unfolding threshold_reached pure
  threshold-LeavesAfter true n begun rest h p o k t e = (
    n,
    subst (λ m. config.failure_threshold ≤ m) (sym (suc-plus n)) (leb→le _ _ p),
    subst (λ s. Outage env config (suc n) s h) (some_injective e) o,
  )
  threshold-LeavesAfter false n begun rest h p o k t e = k t e

  -- What a later cycle promises.
  abbrev Again : (ℕ → ℕ → Action (Option ℕ)) → Type 0
  Again again = (n t : ℕ) (h : History) → Outage env config n t h → LeavesAfter (again n t) h

  -- The history with the note of a failed cycle.
  abbrev noted_unhealthy : ℕ → ℕ → ℕ → History → History
  noted_unhealthy cycle n lost h =
      emitted "active-unhealthy" (
        dict (
          ("cycle", num cycle)
          ∷ ("consecutiveFailures", num (n + 1))
          ∷ ("failedWitnesses", num lost)
          ∷ []))
      ∷ h

  failed_cycle :
      (cycle n begun lost : ℕ) (again : ℕ → ℕ → Action (Option ℕ)) (h : History)
      → Again again
      → Outage env config (suc n) begun h
      → LeavesAfter
          (emit "active-unhealthy" (
              dict (
                ("cycle", num cycle)
                ∷ ("consecutiveFailures", num (n + 1))
                ∷ ("failedWitnesses", num lost)
                ∷ []))
            >> threshold_reached env config
                (leb config.failure_threshold (n + 1))
                begun
                (end_cycle env config (window_over env config cycle) (again (n + 1) begun)))
          h
  unfolding ◌>>=◌ emit
  failed_cycle cycle n begun lost again h k o =
      let o' = later n begun h _ (noted _) o in
      threshold-LeavesAfter _ n begun _ _ refl o' (
        end_cycle-LeavesAfter _ _ _ (
          k (n + 1) begun (slept ∷ noted_unhealthy cycle n lost h) (
            subst (λ m. Outage env config m begun (slept ∷ noted_unhealthy cycle n lost h))
              (suc-plus n) (later n begun _ slept paused o'))))

  cycle_end-LeavesAfter :
      (cycle n first_failure : ℕ) (counts : ℕ × ℕ) (again : ℕ → ℕ → Action (Option ℕ)) (h : History)
      → Again again
      → Outage env config n first_failure h
      → ((lost : ℕ) → counts ≡ (0, lost) → AllFailed env config h)
      → LeavesAfter
          (cycle_end env config cycle n first_failure counts again)
          (after_cycle env config h)
  unfolding cycle_end ◌>>=◌ emit failure_start monotonic
  cycle_end-LeavesAfter cycle n first_failure (suc healthy, lost) again h k o all_lost =
      end_cycle-LeavesAfter _ _ _ (k 0 0 _ (none_yet 0 _))
  cycle_end-LeavesAfter cycle zero first_failure (zero, lost) again h k o all_lost =
      failed_cycle cycle 0 _ lost again _ k (first_failed h (all_lost lost refl))
  cycle_end-LeavesAfter cycle (suc n) first_failure (zero, lost) again h k o all_lost =
      failed_cycle cycle (suc n) _ lost again _ k
        (next_failed n first_failure h o (all_lost lost refl))

  err-leaves : (x : Fault) (h : History) → LeavesAfter (λ k. (err x, k)) h
  err-leaves x h t e = cc

  counted :
      (cycle n first_failure : ℕ) (r : Result (ℕ × ℕ)) (again : ℕ → ℕ → Action (Option ℕ))
      (h : History)
      → Again again
      → Outage env config n first_failure h
      → ((lost : ℕ) → r ≡ ok (0, lost) → AllFailed env config h)
      → LeavesAfter
          (continue r (λ counts. cycle_end env config cycle n first_failure counts again))
          (after_cycle env config h)
  counted cycle n first_failure (ok counts) again h k o all_lost =
      cycle_end-LeavesAfter cycle n first_failure counts again h k o
        (λ lost p. all_lost lost (ap ok p))
  counted cycle n first_failure (err x) again h k o all_lost = err-leaves x _

  monitor-Again : (fuel cycle : ℕ) → Again (monitor env config fuel cycle)
  unfolding monitor ◌>>=◌
  monitor-Again zero cycle n first_failure h o = err-leaves out_of_fuel h
  monitor-Again (suc fuel) cycle n first_failure h o =
      counted (cycle + 1) n first_failure _ _ h (monitor-Again fuel (cycle + 1)) o
        (λ lost p. (lost, p))

  -- If the monitoring loop leaves with the time `t` of a first failure, then the history ends with cycles
  -- that found every witness failed, at least as many as the threshold and with nothing between them but
  -- notes of unhealthy cycles, looks at the clock and pauses, and `t` is what the clock told after the
  -- first of them.
  pub monitor-LongOutage :
      (fuel : ℕ) (h : History) (t : ℕ)
      → (monitor env config fuel 0 0 0 h).0 ≡ ok (some t)
      → LongOutage t (monitor env config fuel 0 0 0 h).1
  monitor-LongOutage fuel h t e = monitor-Again fuel 0 0 0 h (none_yet 0 h) t e
