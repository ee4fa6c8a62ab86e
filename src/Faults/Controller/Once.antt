-- ===== src/Faults/Controller/Once.antt =====
-- fault-control/fault_control.py, `Controller.execute`: a fault request that is sent again.
use zkdeal_cloud_deployer_in.Faults.Model.{Action, Surroundings, World}
use zkdeal_cloud_deployer_in.Base.Machine.{
  bind-Passed, bind-pure, lift, lift_cases, map_result, map_result-ok, require_cases,
  require_passed, ◌>>=◌,
}
use zkdeal_cloud_deployer_in.Base.{
  Bool, String, [], ap, false, inl, inr, refl, subst, sym, true, ◌∙◌, ◌∷◌, ◌≡◌, ◌⊎◌,
}
use zkdeal_cloud_deployer_in.Base.Json.{Fields, eq_texts, get}
use zkdeal_cloud_deployer_in.Base.Decimal.{concat}
use zkdeal_cloud_deployer_in.Faults.Requests.{Drill, checked_drill}
use zkdeal_cloud_deployer_in.Faults.Journal.{execute}
use zkdeal_cloud_deployer_in.Faults.Journal.WriteOnce.{Extends, Readable, WritesOnce}
use zkdeal_cloud_deployer_in.Faults.Journal.AtMostOnce.{Idle, at_most_once}
use zkdeal_cloud_deployer_in.Faults.Controller.{
  Controller, execute_fault, receipt, run_drill, validate_binding,
}
use zkdeal_cloud_deployer_in.Faults.Controller.Containment.{run_drill-Keeps}
use zkdeal_cloud_deployer_in.Base.Outcome.{ok}
use zkdeal_cloud_deployer_in.Faults.Documents.{is_correlation_id}
use zkdeal_cloud_deployer_in.Faults.Topology.{binding}
use zkdeal_cloud_deployer_in.Faults.Journal.Replay.{execute_replays}

module _ (env : Surroundings) (controller : Controller) where
  pub run_drill-WritesOnce :
      (drill : Drill) (operation_id : String)
      → WritesOnce (run_drill env controller drill operation_id)
  run_drill-WritesOnce drill operation_id start =
      run_drill-Keeps env controller {P = λ w. Extends start w.files} (λ event contained w p. p)
        drill operation_id

  -- After the checks, a fault request is one call of the journal.
  execute_fault-cases :
      (body : Fields) (key correlation_id : String) (w : World) (Q : World → Type 0)
      → Q w
      → ((action : String) (drill : Drill)
          → Q
              (execute env controller.binding_digest
                (concat ("fault:" ∷ action ∷ []))
                body
                key
                correlation_id
                (run_drill env controller drill)
                w).1)
      → Q (execute_fault env controller body key correlation_id w).1
  unfolding execute_fault validate_binding
  execute_fault-cases body key correlation_id w Q same called =
      require_cases _ _ _ w (λ r. Q r.1) same
        (λ valid.
          require_cases _ _ _ w (λ r. Q r.1) same
            (λ bound.
              lift_cases (checked_drill body) _ w (λ r. Q r.1) (λ fault. same)
                (λ chosen e.
                  subst (λ r. Q r.1) (sym (bind-pure _ (λ r. (receipt env controller r.0, r.1)) w))
                    (called chosen.0 chosen.1))))

  -- A fault request changes nothing but a look at the clock, or in every later world that keeps its files
  -- no fault request with its idempotency key changes anything, whatever it says, and also where the first
  -- drill failed half-way.
  pub execute_fault_once :
      (body : Fields) (key correlation_id : String) (w : World)
      → Idle w (execute_fault env controller body key correlation_id w).1
        ⊎ ((body_again : Fields) (correlation_id_again : String) (later : World)
            → Extends (execute_fault env controller body key correlation_id w).1.files later.files
            → (execute_fault env controller body_again key correlation_id_again later).1 ≡ later)
  execute_fault_once body key correlation_id w =
      execute_fault-cases body key correlation_id w
        (λ v.
          Idle w v
          ⊎ ((body_again : Fields) (correlation_id_again : String) (later : World)
              → Extends v.files later.files
              → (execute_fault env controller body_again key correlation_id_again later).1 ≡ later))
        (inl (inl refl))
        (λ action drill.
          elim (at_most_once env controller.binding_digest (concat ("fault:" ∷ action ∷ [])) body
            key correlation_id (run_drill env controller drill) w (run_drill-WritesOnce drill)) [
              | inl idle ↦ inl idle
              | inr again ↦ inr (λ body_again correlation_id_again later extends.
                  execute_fault-cases body_again key correlation_id_again later (λ v. v ≡ later)
                    refl
                    (λ action_again drill_again.
                      again (concat ("fault:" ∷ action_again ∷ [])) body_again correlation_id_again
                        (run_drill env controller drill_again) later extends))
            ])

  -- The answer of the journal, with the receipt.
  abbrev signed : Fields × Bool → Fields × Bool
  signed answer = (receipt env controller answer.0, answer.1)

  -- The call of the journal that a request with these checks results in.
  abbrev called : String → Drill → Fields → String → String → Action (Fields × Bool)
  called action drill body key correlation_id =
      execute env controller.binding_digest (concat ("fault:" ∷ action ∷ [])) body key
        correlation_id (run_drill env controller drill)

  execute_fault_checked :
      (body : Fields) (key correlation_id : String) (action : String) (drill : Drill) (w : World)
      → is_correlation_id correlation_id ≡ true
      → eq_texts (get body "binding") (binding controller.topology) ≡ true
      → checked_drill body ≡ ok (action, drill)
      → execute_fault env controller body key correlation_id w ≡ (
        map_result signed (called action drill body key correlation_id w).0,
        (called action drill body key correlation_id w).1,
      )
  unfolding execute_fault validate_binding ◌>>=◌
  execute_fault_checked body key correlation_id action drill w valid bound checked =
      rw (valid, bound, checked) (bind-pure (called action drill body key correlation_id) signed w)

  record Accepted (body : Fields) (correlation_id : String) : Type 0 where
    pub action : String
    pub drill : Drill
    pub valid : is_correlation_id correlation_id ≡ true
    pub bound : eq_texts (get body "binding") (binding controller.topology) ≡ true
    pub checked : checked_drill body ≡ ok (action, drill)

  execute_fault-Accepted :
      (body : Fields) (key correlation_id : String) (w : World) (answer : Fields × Bool)
      → (execute_fault env controller body key correlation_id w).0 ≡ ok answer
      → Accepted body correlation_id
  unfolding execute_fault validate_binding lift
  execute_fault-Accepted body key correlation_id w answer h =
      let valid = bind-Passed _ _ w _ h in
      let bound = bind-Passed _ _ _ _ valid.second in
      let checked = bind-Passed _ _ _ _ bound.second in
      record {
        action = checked.value.0;
        drill = checked.value.1;
        valid = require_passed _ _ w valid.value valid.first;
        bound = require_passed _ _ _ bound.value bound.first;
        checked = checked.first;
      }

  -- A fault request that returned a new response, after which no file of the journal is beyond the bound on
  -- reading records, sent again in any later world that keeps the files, is answered with that response as
  -- a replay, and changes nothing.
  pub execute_fault_replays :
      (body : Fields) (key correlation_id : String) (w : World) (response : Fields)
      → (execute_fault env controller body key correlation_id w).0 ≡ ok (response, false)
      → Readable (execute_fault env controller body key correlation_id w).1.files
      → (later : World)
      → Extends (execute_fault env controller body key correlation_id w).1.files later.files
      → execute_fault env controller body key correlation_id later ≡ (ok (response, true), later)
  unfolding map_result
  execute_fault_replays body key correlation_id w response h readable later extends =
      let it = execute_fault-Accepted body key correlation_id w (response, false) h in
      let run = run_drill env controller it.drill in
      let action = concat ("fault:" ∷ it.action ∷ []) in
      let first =
        execute_fault_checked body key correlation_id it.action it.drill w it.valid it.bound
          it.checked in
      let (answer, returned, same) =
        map_result-ok signed _ (response, false) (sym (ap (λ r. r.0) first) ∙ h) in
      let replayed =
        execute_replays env controller.binding_digest action body key correlation_id run w answer.0
          (run_drill-WritesOnce it.drill)
          (returned ∙ ap (λ b. ok (answer.0, b)) (ap (λ r. r.1) same))
          (subst (λ v. Readable v.files) (ap (λ r. r.1) first) readable) later run
          (subst (λ v. Extends v.files later.files) (ap (λ r. r.1) first) extends) in
      execute_fault_checked body key correlation_id it.action it.drill later it.valid it.bound
        it.checked
      ∙ ap (λ r. (map_result signed r.0, r.1)) replayed
      ∙ ap (λ r. (ok (r.0, true), later)) same
