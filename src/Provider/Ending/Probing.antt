-- ===== src/Provider/Ending/Probing.antt =====
-- failover-provider/provider.py: the rounds of the probes and of the loops with a deadline.
use zkdeal_cloud_deployer_in.Base.{
  Bool, List, Option, String, [], arith, false, ltb, ltb→lt, none, refl, some, suc, true, zero, ℕ,
  ◌*◌, ◌+◌, ◌<◌, ◌∷◌, ◌≡◌, ◌≤◌,
}
use zkdeal_cloud_deployer_in.Base.Json.{Json}
use zkdeal_cloud_deployer_in.Provider.Model.{
  Action, Result, Surroundings, World, continue, err, fetched, looked_at_clock, looked_at_date, ok,
  out_of_fuel, provider_error, require, resolved, slept, unexpected, value_error, ◌>>=◌,
}
use zkdeal_cloud_deployer_in.Provider.Probes.{
  Config, addresses_of, count_failed, fetch, lsn_value, monotonic, or_inactive, poll, poll_for,
  resolve_all, resolve_one, signer_pass, signer_round, unless_found, verify_indexer,
  verify_signer_authority, verify_standby, verify_witness_failures, wall, while_in_time,
  witness_networks,
}
use zkdeal_cloud_deployer_in.Provider.Ending.{
  Ended, Ends, Ends-bind, Ends-pure, Ends-require, Paced, ends_rules, le_trans, same_time,
}

addresses_of-Ended : (o : Option (List String)) → Ended (addresses_of o)
addresses_of-Ended none = tt
addresses_of-Ended (some []) = tt
addresses_of-Ended (some (address ∷ rest)) = tt

pause_enough :
    (deadline now later fuel : ℕ)
    → deadline ≤ now + fuel * 1000
    → now + 1000 ≤ later
    → deadline + 1000 ≤ later + fuel * 1000
pause_enough deadline now later fuel d l = omega arith

some_round : (deadline now fuel : ℕ) → now < deadline → deadline ≤ now + fuel * 1000 → 0 < fuel
some_round deadline now fuel p d = omega arith

still_enough :
    (deadline now later fuel : ℕ)
    → deadline ≤ now + fuel * 1000
    → now ≤ later
    → deadline ≤ later + fuel * 1000
still_enough deadline now later fuel d l = omega arith

no_round : 0 < 0 → ⊥
no_round p = omega arith

one_less :
    (deadline now fuel : ℕ) → deadline + 1000 ≤ now + suc fuel * 1000 → deadline ≤ now + fuel * 1000
one_less deadline now fuel d = omega arith

at_least_one_round : (n : ℕ) → 0 < suc n
at_least_one_round n = omega arith

first_round :
    (begun seconds now : ℕ) → begun ≤ now → begun + seconds * 1000 + 1000 ≤ now + suc seconds * 1000
first_round begun seconds now c = omega arith

module _ (env : Surroundings) (paced : Paced env) where
  pub lsn_value-Ends : (value : String) → Ends env (lsn_value value)
  unfolding lsn_value
  lsn_value-Ends value = search ends_rules

  pub fetch-Ends : (url : String) → Ends env (fetch env url)
  unfolding fetch
  fetch-Ends url = record { ends = λ w. tt; later = λ w. paced.goes_on w.history (fetched url) }

  pub monotonic-Ends : Ends env (monotonic env)
  unfolding monotonic
  monotonic-Ends = record { ends = λ w. tt; later = λ w. paced.goes_on w.history looked_at_clock }

  pub wall-Ends : Ends env (wall env)
  unfolding wall
  wall-Ends = record { ends = λ w. tt; later = λ w. paced.goes_on w.history looked_at_date }

  module _ {A : Type 0} (body : Action (Option A)) (kept : Ends env body) where
    -- Both facts about one run.
    abbrev Fine : World → Result (Option A) × World → Type 0
    Fine w out = Ended out.0 × (env.monotonic w.history ≤ env.monotonic out.1.history)

    -- So many rounds are enough, whenever the loop is entered.
    abbrev Enough : ℕ → ℕ → Type 0
    Enough fuel deadline =
        (w : World)
        → 0 < fuel
        → deadline + 1000 ≤ env.monotonic w.history + fuel * 1000
        → Fine w (poll env fuel deadline body w)

    after_round :
        (fuel deadline : ℕ) (found : Option A) (w : World)
        → 0 < fuel
        → Enough fuel deadline
        → deadline ≤ env.monotonic w.history + fuel * 1000
        → Fine w (unless_found found (poll env fuel deadline body) w)
    unfolding unless_found ◌>>=◌
    after_round fuel deadline (some a) w p k d = (tt, same_time _)
    after_round fuel deadline none w p k d =
        let v : World = record w { history = slept ∷ w.history } in
        let rest = k v p (pause_enough _ _ _ _ d (paced.sleeps w.history)) in
        (rest.0, le_trans (paced.goes_on w.history slept) rest.1)

    after_body :
        (fuel deadline : ℕ) (r : Result (Option A)) (w : World)
        → Ended r
        → 0 < fuel
        → Enough fuel deadline
        → deadline ≤ env.monotonic w.history + fuel * 1000
        → Fine w (continue r (λ found. unless_found found (poll env fuel deadline body)) w)
    after_body fuel deadline (ok found) w e p k d = after_round fuel deadline found w p k d
    after_body fuel deadline (err (provider_error status code)) w e p k d = (tt, same_time _)
    after_body fuel deadline (err value_error) w e p k d = (tt, same_time _)
    after_body fuel deadline (err unexpected) w e p k d = (tt, same_time _)
    after_body fuel deadline (err out_of_fuel) w e p k d = absurd e

    one_round :
        (fuel deadline now : ℕ) (b : Bool) (w : World)
        → ltb now deadline ≡ b
        → now ≤ env.monotonic w.history
        → Enough fuel deadline
        → deadline ≤ now + fuel * 1000
        → Fine w
            (while_in_time b (body >>= λ found. unless_found found (poll env fuel deadline body)) w)
    unfolding while_in_time ◌>>=◌
    one_round fuel deadline now false w q c k d = (tt, same_time _)
    one_round fuel deadline now true w q c k d =
        let rest =
          after_body fuel deadline (body w).0 (body w).1 (kept.ends w)
            (some_round _ _ _ (ltb→lt _ _ q) d) k
            (still_enough _ _ _ _ d (le_trans c (kept.later w))) in
        (rest.0, le_trans (kept.later w) rest.1)

    poll-Enough : (fuel deadline : ℕ) → Enough fuel deadline
    unfolding poll monotonic ◌>>=◌
    poll-Enough zero deadline w p d = absurd (no_round p)
    poll-Enough (suc fuel) deadline w p d =
        let now = env.monotonic w.history in
        let v : World = record w { history = looked_at_clock ∷ w.history } in
        let passed = paced.goes_on w.history looked_at_clock in
        let rest =
          one_round fuel deadline now (ltb now deadline) v refl passed (poll-Enough fuel deadline)
            (one_less _ _ _ d) in
        (rest.0, le_trans passed rest.1)

    poll-from :
        (seconds begun : ℕ) (w : World)
        → begun ≤ env.monotonic w.history
        → Fine w (poll env (suc seconds) (begun + seconds * 1000) body w)
    poll-from seconds begun w c =
        poll-Enough (suc seconds) (begun + seconds * 1000) w (at_least_one_round seconds)
          (first_round _ _ _ c)

    pub poll_for-Ends : (seconds : ℕ) → Ends env (poll_for env seconds body)
    unfolding poll_for monotonic ◌>>=◌
    poll_for-Ends seconds = record {
      ends = λ w. (poll-from seconds _ _ (paced.goes_on w.history looked_at_clock)).0;
      later = λ w.
          le_trans (paced.goes_on w.history looked_at_clock)
            (poll-from seconds _ _ (paced.goes_on w.history looked_at_clock)).1;
    }

  resolve_one-Ends : (url : String) → Ends env (resolve_one env url)
  unfolding resolve_one
  resolve_one-Ends url = record {
    ends = λ w. addresses_of-Ended (env.resolve w.history url);
    later = λ w. paced.goes_on w.history (resolved url);
  }

  resolve_all-Ends : (urls : List String) → Ends env (resolve_all env urls)
  unfolding resolve_all
  resolve_all-Ends [] = search ends_rules
  resolve_all-Ends (url ∷ rest) =
      Ends-bind (resolve_one env url) _ (resolve_one-Ends url)
        λ addresses. search (ends_rules, resolve_all-Ends rest)

  witness_networks-Ends : (urls : List String) → Ends env (witness_networks env urls)
  unfolding witness_networks
  witness_networks-Ends urls = search (ends_rules, resolve_all-Ends)

  count_failed-Ends :
      (id : String) (urls : List String) (failed : ℕ) → Ends env (count_failed env id urls failed)
  unfolding count_failed
  count_failed-Ends id [] failed = Ends-pure failed
  count_failed-Ends id (url ∷ rest) failed = Ends-bind (fetch env url) _ (fetch-Ends url) λ reply.
      Ends-bind (require _ _) _ (Ends-require _ _ _) λ u. count_failed-Ends id rest (failed + 1)

  module _ (config : Config) where
    pub verify_witness_failures-Ends :
        (id : String) (claimed : Json) → Ends env (verify_witness_failures env config id claimed)
    unfolding verify_witness_failures
    verify_witness_failures-Ends id claimed =
        search (ends_rules, witness_networks-Ends, count_failed-Ends)

    pub verify_standby-Ends : (id : String) → Ends env (verify_standby env config id)
    unfolding verify_standby
    verify_standby-Ends id = search (ends_rules, fetch-Ends)

    pub verify_indexer-Ends : Ends env (verify_indexer env config)
    unfolding verify_indexer
    verify_indexer-Ends = search (ends_rules, fetch-Ends)

    signer_pass-Ends : (urls : List String) → Ends env (signer_pass env config urls)
    unfolding signer_pass
    signer_pass-Ends [] = Ends-pure true
    signer_pass-Ends (url ∷ rest) =
        Ends-bind (fetch env url) _ (fetch-Ends url)
          λ reply. search (ends_rules, signer_pass-Ends rest)

    signer_round-Ends : Ends env (signer_round env config)
    unfolding signer_round
    signer_round-Ends = search (ends_rules, signer_pass-Ends)

    or_inactive-Ends : (o : Option (Unit {0})) → Ends env (or_inactive o)
    unfolding or_inactive
    or_inactive-Ends none = search ends_rules
    or_inactive-Ends (some u) = search ends_rules

    pub verify_signer_authority-Ends : Ends env (verify_signer_authority env config)
    unfolding verify_signer_authority
    verify_signer_authority-Ends =
        Ends-bind (poll_for env config.platform_timeout_seconds (signer_round env config)) _
          (poll_for-Ends (signer_round env config) signer_round-Ends _) or_inactive-Ends

    pub ruleset probe_end_rules = (
      ends_rules, verify_witness_failures-Ends, verify_standby-Ends, verify_indexer-Ends,
      verify_signer_authority-Ends,
    )
