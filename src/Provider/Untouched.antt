-- ===== src/Provider/Untouched.antt =====
-- What the probes and the two drivers of failover-provider/provider.py do to the operations.
pub mod DockerDriver
pub mod KubernetesDriver
use zkdeal_cloud_deployer_in.Base.{
  Bool, List, Option, String, [], false, ltb, none, some, suc, true, zero, ℕ, ◌*◌, ◌+◌, ◌∷◌,
}
use zkdeal_cloud_deployer_in.Base.Json.{Json}
use zkdeal_cloud_deployer_in.Provider.Model.{Action, Operations, Surroundings, note, require, slept}
use zkdeal_cloud_deployer_in.Provider.Probes.{
  Config, count_failed, fetch, lsn_value, monotonic, or_inactive, poll, poll_for, resolve_all,
  resolve_one, signer_pass, signer_round, unless_found, verify_indexer, verify_signer_authority,
  verify_standby, verify_witness_failures, wall, while_in_time, witness_networks,
}
use zkdeal_cloud_deployer_in.Provider.Rules.{
  Leaves, Leaves-bind, Leaves-note, Leaves-pure, Leaves-require, leaves_rules,
}

module _ {I : Operations → Type 0} where
  pub lsn_value-Leaves : (value : String) → Leaves I (lsn_value value)
  unfolding lsn_value
  lsn_value-Leaves value = search leaves_rules

  module _ (env : Surroundings) where
    pub fetch-Leaves : (url : String) → Leaves I (fetch env url)
    unfolding fetch
    fetch-Leaves url = record { at = λ w i. i }

    pub monotonic-Leaves : Leaves I (monotonic env)
    unfolding monotonic
    monotonic-Leaves = record { at = λ w i. i }

    pub wall-Leaves : Leaves I (wall env)
    unfolding wall
    wall-Leaves = record { at = λ w i. i }

    module _ {A : Type 0} (body : Action (Option A)) (kept : Leaves I body) where
      unless_found-Leaves :
          (found : Option A) (rest : Action (Option A))
          → Leaves I rest
          → Leaves I (unless_found found rest)
      unfolding unless_found
      unless_found-Leaves none rest h = Leaves-bind (note slept) _ (Leaves-note slept) (λ u. h)
      unless_found-Leaves (some a) rest h = Leaves-pure (some a)

      while_in_time-Leaves :
          (b : Bool) (round : Action (Option A)) → Leaves I round → Leaves I (while_in_time b round)
      unfolding while_in_time
      while_in_time-Leaves false round h = Leaves-pure none
      while_in_time-Leaves true round h = h

      poll-Leaves : (fuel deadline : ℕ) → Leaves I (poll env fuel deadline body)
      unfolding poll
      poll-Leaves zero deadline = search leaves_rules
      poll-Leaves (suc fuel) deadline = Leaves-bind (monotonic env) _ monotonic-Leaves λ now.
          while_in_time-Leaves (ltb now deadline) _ (
            Leaves-bind body _ kept
              λ found. unless_found-Leaves found _ (poll-Leaves fuel deadline))

      pub poll_for-Leaves : (seconds : ℕ) → Leaves I (poll_for env seconds body)
      unfolding poll_for
      poll_for-Leaves seconds =
          Leaves-bind (monotonic env) _ monotonic-Leaves
            λ begun. poll-Leaves (suc seconds) (begun + seconds * 1000)

    resolve_one-Leaves : (url : String) → Leaves I (resolve_one env url)
    unfolding resolve_one
    resolve_one-Leaves url = record { at = λ w i. i }

    resolve_all-Leaves : (urls : List String) → Leaves I (resolve_all env urls)
    unfolding resolve_all
    resolve_all-Leaves [] = search leaves_rules
    resolve_all-Leaves (url ∷ rest) =
        Leaves-bind (resolve_one env url) _ (resolve_one-Leaves url)
          λ addresses. search (leaves_rules, resolve_all-Leaves rest)

    witness_networks-Leaves : (urls : List String) → Leaves I (witness_networks env urls)
    unfolding witness_networks
    witness_networks-Leaves urls = search (leaves_rules, resolve_all-Leaves)

    count_failed-Leaves :
        (id : String) (urls : List String) (failed : ℕ) → Leaves I (count_failed env id urls failed)
    unfolding count_failed
    count_failed-Leaves id [] failed = Leaves-pure failed
    count_failed-Leaves id (url ∷ rest) failed =
        Leaves-bind (fetch env url) _ (fetch-Leaves url) λ reply.
          Leaves-bind (require _ _) _ (Leaves-require _ _)
            λ u. count_failed-Leaves id rest (failed + 1)

    module _ (config : Config) where
      pub verify_witness_failures-Leaves :
          (id : String) (claimed : Json) → Leaves I (verify_witness_failures env config id claimed)
      unfolding verify_witness_failures
      verify_witness_failures-Leaves id claimed =
          search (leaves_rules, witness_networks-Leaves, count_failed-Leaves)

      pub verify_standby-Leaves : (id : String) → Leaves I (verify_standby env config id)
      unfolding verify_standby
      verify_standby-Leaves id = search (leaves_rules, fetch-Leaves)

      pub verify_indexer-Leaves : Leaves I (verify_indexer env config)
      unfolding verify_indexer
      verify_indexer-Leaves = search (leaves_rules, fetch-Leaves)

      signer_pass-Leaves : (urls : List String) → Leaves I (signer_pass env config urls)
      unfolding signer_pass
      signer_pass-Leaves [] = Leaves-pure true
      signer_pass-Leaves (url ∷ rest) =
          Leaves-bind (fetch env url) _ (fetch-Leaves url)
            λ reply. search (leaves_rules, signer_pass-Leaves rest)

      signer_round-Leaves : Leaves I (signer_round env config)
      unfolding signer_round
      signer_round-Leaves = search (leaves_rules, signer_pass-Leaves)

      or_inactive-Leaves : (o : Option (Unit {0})) → Leaves I (or_inactive o)
      unfolding or_inactive
      or_inactive-Leaves none = search leaves_rules
      or_inactive-Leaves (some u) = search leaves_rules

      pub verify_signer_authority-Leaves : Leaves I (verify_signer_authority env config)
      unfolding verify_signer_authority
      verify_signer_authority-Leaves =
          Leaves-bind (poll_for env config.platform_timeout_seconds (signer_round env config)) _
            (poll_for-Leaves (signer_round env config) signer_round-Leaves _) or_inactive-Leaves

      pub ruleset probe_rules = (
        leaves_rules, verify_witness_failures-Leaves, verify_standby-Leaves, verify_indexer-Leaves,
        verify_signer_authority-Leaves,
      )
