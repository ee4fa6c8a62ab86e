-- ===== src/Provider/Ending/Methods.antt =====
-- The rounds of `Provider.prepare` and `Provider.commit` of failover-provider/provider.py.
use zkdeal_cloud_deployer_in.Base.{Option, String, none, refl, some, subst, ◌≢◌}
use zkdeal_cloud_deployer_in.Base.Json.{Fields, Json}
use zkdeal_cloud_deployer_in.Provider.Model.{
  Action, Key, Operation, Result, Surroundings, World, err, out_of_fuel,
}
use zkdeal_cloud_deployer_in.Provider.Probes.{Config}
use zkdeal_cloud_deployer_in.Provider.Operations.{
  Driver, amend, begin_commit, begin_prepare, check_prepare, checkpoint, commit, commit_found,
  insert, or_else, prepare, prepare_found, resume_commit, resume_prepare, run_commit, run_prepare,
}
use zkdeal_cloud_deployer_in.Provider.Ending.{Ended, Ends, Ends-pure, Ends-still, Paced, ends_rules}
use zkdeal_cloud_deployer_in.Provider.Ending.Probing.{probe_end_rules, wall-Ends}
use zkdeal_cloud_deployer_in.Provider.Ending.DockerDriver.{docker_commit-Ends, docker_prepare-Ends}
use zkdeal_cloud_deployer_in.Provider.Ending.KubernetesDriver.{
  kubernetes_commit-Ends, kubernetes_prepare-Ends,
}
use zkdeal_cloud_deployer_in.Provider.Contract.Lawful.{docker_driver, kubernetes_driver}
use zkdeal_cloud_deployer_in.Provider.Docker
use zkdeal_cloud_deployer_in.Provider.Kubernetes

-- A driver whose methods end, the first one if its checkpoint does.
record HasEnd (env : Surroundings) (driver : Driver) : Type 0 where
  prepare_ends :
      (checkpoint : String → Action (Unit {0}))
      → ((target : String) → Ends env (checkpoint target))
      → (candidate : Json) (existing : Option String)
      → Ends env (driver.prepare candidate existing checkpoint)
  commit_ends : (operation_id : String) → Ends env (driver.commit operation_id)

module _ (env : Surroundings) (paced : Paced env) (config : Config) (driver : Driver)
    (has_end : HasEnd env driver) where
  amend-Ends : (id : Key) (change : Operation → Operation) → Ends env (amend id change)
  unfolding amend
  amend-Ends id change = Ends-still _ (λ w. tt) (λ w. refl)

  insert-Ends : (id : Key) (o : Operation) → Ends env (insert id o)
  unfolding insert
  insert-Ends id o = Ends-still _ (λ w. tt) (λ w. refl)

  or_else-Ends :
      (kept : Option Fields) (rest : Action Fields) → Ends env rest → Ends env (or_else kept rest)
  unfolding or_else
  or_else-Ends none rest e = record { ends = e.ends; later = e.later }
  or_else-Ends (some response) rest e = Ends-pure response

  checkpoint-Ends : (id : Key) (target : String) → Ends env (checkpoint env config driver id target)
  unfolding checkpoint
  checkpoint-Ends id target = search (ends_rules, wall-Ends, amend-Ends) depth 9

  check_prepare-Ends :
      (key : String) (request : Fields) → Ends env (check_prepare env config driver key request)
  unfolding check_prepare
  check_prepare-Ends key request = search ends_rules depth 12

  run_prepare-Ends :
      (id : Key) (request : Fields) → Ends env (run_prepare env config driver id request)
  unfolding run_prepare
  run_prepare-Ends id request =
      search (probe_end_rules, has_end.prepare_ends, checkpoint-Ends, amend-Ends) depth 15

  resume_prepare-Ends :
      (key : String) (request : Fields) (id : Key) (o : Operation)
      → Ends env (resume_prepare env config driver key request id o)
  unfolding resume_prepare
  resume_prepare-Ends key request id o = search (ends_rules, or_else-Ends, run_prepare-Ends) depth 9

  prepare_found-Ends :
      (found : Option Operation) (key : String) (request : Fields) (id : Key)
      → Ends env (prepare_found env config driver found key request id)
  unfolding prepare_found begin_prepare
  prepare_found-Ends none key request id =
      search (ends_rules, wall-Ends, insert-Ends, run_prepare-Ends) depth 9
  prepare_found-Ends (some o) key request id = resume_prepare-Ends key request id o

  prepare-Ends :
      (key : String) (request : Fields) → Ends env (prepare env config driver key request)
  unfolding prepare
  prepare-Ends key request = search (ends_rules, check_prepare-Ends, prepare_found-Ends) depth 9

  run_commit-Ends : (operation_id : String) → Ends env (run_commit env config driver operation_id)
  unfolding run_commit
  run_commit-Ends operation_id =
      search (ends_rules, has_end.commit_ends, wall-Ends, amend-Ends) depth 15

  commit_found-Ends :
      (used : Option String) (operation_id key : String) (request : Fields) (o : Operation)
      → Ends env (commit_found env config driver used operation_id key request o)
  unfolding commit_found begin_commit resume_commit
  commit_found-Ends none operation_id key request o =
      search (ends_rules, amend-Ends, run_commit-Ends) depth 9
  commit_found-Ends (some hash) operation_id key request o =
      search (ends_rules, or_else-Ends, run_commit-Ends) depth 9

  commit-Ends :
      (operation_id key : String) (request : Fields)
      → Ends env (commit env config driver operation_id key request)
  unfolding commit
  commit-Ends operation_id key request = search (ends_rules, commit_found-Ends) depth 12

-- Neither a prepare nor a commit exceeds the rounds of its loops.
abbrev pub BothEnd : Surroundings → Config → Driver → Type 0
BothEnd env config driver =
    ((key : String) (request : Fields) (w : World)
      → (prepare env config driver key request w).0 ≢ err out_of_fuel)
    × ((operation_id key : String) (request : Fields) (w : World)
        → (commit env config driver operation_id key request w).0 ≢ err out_of_fuel)

never {ℓ} : {A : Type ℓ} (r : Result A) → Ended r → r ≢ err out_of_fuel
never r e h = subst Ended h e

both_end :
    (env : Surroundings) (paced : Paced env) (config : Config) (driver : Driver)
    → HasEnd env driver
    → BothEnd env config driver
both_end env paced config driver has_end = (
  (λ key request w. never _ ((prepare-Ends env paced config driver has_end key request).ends w)),
  (λ operation_id key request w.
      never _ ((commit-Ends env paced config driver has_end operation_id key request).ends w)),
)

module _ (env : Surroundings) (paced : Paced env) (config : Config) where
  -- With a clock that goes on, the rounds of the loops are enough: no prepare and no commit over the
  -- Docker driver ends for want of them.
  pub docker_methods_end :
      (settings : Docker.Settings) → BothEnd env config (docker_driver settings env config)
  docker_methods_end settings = both_end env paced config _ record {
    prepare_ends = λ checkpoint kept candidate existing.
        docker_prepare-Ends env paced settings checkpoint kept config candidate existing;
    commit_ends = λ operation_id. docker_commit-Ends env paced settings config operation_id;
  }

  -- With a clock that goes on, the rounds of the loops are enough: no prepare and no commit over the
  -- Kubernetes driver ends for want of them.
  pub kubernetes_methods_end :
      (settings : Kubernetes.Settings) → BothEnd env config (kubernetes_driver settings env config)
  kubernetes_methods_end settings = both_end env paced config _ record {
    prepare_ends = λ checkpoint kept candidate existing.
        kubernetes_prepare-Ends env paced settings config checkpoint kept candidate existing;
    commit_ends = λ operation_id. kubernetes_commit-Ends env paced settings config operation_id;
  }
