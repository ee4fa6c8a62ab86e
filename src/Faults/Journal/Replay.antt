-- ===== src/Faults/Journal/Replay.antt =====
-- fault-control/fault_control.py, `Journal.execute` for a key that was used before.
use zkdeal_cloud_deployer_in.Faults.Journal.Completed.{Finished, execute-Completed}
use zkdeal_cloud_deployer_in.Faults.Model.{
  Surroundings, World, control_error, document, find, oversized,
}
use zkdeal_cloud_deployer_in.Faults.Journal.{
  Callback, by_intent, closure, closure_name, closure_of, execute, fields_of, intent_name,
  intent_of, member, operation_id_of, parse_record, read_found, read_record, replay, replay_closure,
  request_digest, stored,
}
use zkdeal_cloud_deployer_in.Base.{String, ap, eq_refl, false, some, true, ◌==◌, ◌∙◌, ◌≡◌, ◌≢◌}
use zkdeal_cloud_deployer_in.Base.Json.{Fields, put, str}
use zkdeal_cloud_deployer_in.Base.Machine.{◌>>=◌}
use zkdeal_cloud_deployer_in.Base.Outcome.{err, ok, some_or}
use zkdeal_cloud_deployer_in.Faults.Journal.WriteOnce.{Extends, Readable, WritesOnce, stored_small}
use zkdeal_cloud_deployer_in.Faults.Documents.{as_fields, is_operation_id}

module _ (env : Surroundings) (binding_digest : String) where
  pub finished_later :
      {action digest correlation_id : String} {intent : Fields} {response : Fields}
      (w later : World)
      → Finished env binding_digest action digest correlation_id intent w response
      → Extends w.files later.files
      → Finished env binding_digest action digest correlation_id intent later response
  finished_later w later done extends = record {
    finished = done.finished;
    results = done.results;
    closure_found = extends _ _ done.closure_found;
    answer = done.answer;
  }

  replay_closure-found :
      (action digest correlation_id : String) (intent : Fields) (w : World) (response : Fields)
      → (done : Finished env binding_digest action digest correlation_id intent w response)
      → stored env (
          closure_of env binding_digest action digest correlation_id intent done.finished
            done.results)
        ≡ document (
            closure_of env binding_digest action digest correlation_id intent done.finished
              done.results)
      → replay_closure env binding_digest (operation_id_of env binding_digest digest) w
        ≡ (ok (response, true), w)
  unfolding replay_closure ◌>>=◌ read_record read_found parse_record member some_or fields_of
      as_fields
  replay_closure-found action digest correlation_id intent w response done small =
      rw (done.closure_found, small, done.answer)

  replay-found :
      (action key digest correlation_id started : String) (w : World) (response : Fields)
      → find (intent_name (env.sha256 key)) w.files
        ≡ some (document (intent_of env binding_digest action key digest correlation_id started))
      → (done : Finished env binding_digest action digest correlation_id
          (intent_of env binding_digest action key digest correlation_id started)
          w
          response)
      → stored env (
          closure_of env binding_digest action digest correlation_id
            (intent_of env binding_digest action key digest correlation_id started)
            done.finished
            done.results)
        ≡ document (
            closure_of env binding_digest action digest correlation_id
              (intent_of env binding_digest action key digest correlation_id started)
              done.finished
              done.results)
      → replay env binding_digest key digest w ≡ (ok (response, true), w)
  unfolding replay ◌>>=◌ read_record read_found parse_record
  replay-found action key digest correlation_id started w response found done small =
      rw
        (
          found,
          eq_refl digest,
          eq_refl (operation_id_of env binding_digest digest),
          done.closure_found,
        )
        (replay_closure-found action digest correlation_id _ w response done small)

  -- A call that returned a new response, made again with the same arguments in any later world that keeps
  -- its files, returns that response as a replay and changes nothing. The effect is assumed to keep the
  -- journal's files, and the records that the first call left to be within the bound on reading them.
  pub execute_replays :
      (action : String) (body : Fields) (key correlation_id : String) (callback : Callback)
      (w : World) (response : Fields)
      → ((operation_id : String) → WritesOnce (callback operation_id))
      → (execute env binding_digest action body key correlation_id callback w).0
        ≡ ok (response, false)
      → Readable (execute env binding_digest action body key correlation_id callback w).1.files
      → (later : World) (callback_again : Callback)
      → Extends
          (execute env binding_digest action body key correlation_id callback w).1.files
          later.files
      → execute env binding_digest action body key correlation_id callback_again later
        ≡ (ok (response, true), later)
  unfolding execute by_intent ◌>>=◌ finished_later
  execute_replays action body key correlation_id callback w response once h readable later
        callback_again extends =
      let done =
        execute-Completed env binding_digest action body key correlation_id callback w response once
          h in
      let digest = request_digest env binding_digest action body correlation_id in
      let intent = intent_of env binding_digest action key digest correlation_id done.started in
      let small = stored_small env intent _ done.intent_found (readable _) in
      let intent_found = extends _ _ (done.intent_found ∙ ap some small) in
      rw (done.valid_key, intent_found)
        (replay-found action key digest correlation_id done.started later response intent_found
          (finished_later _ _ done.outcome extends)
          (stored_small env _ _ done.outcome.closure_found (readable _)))

  -- Once a call has returned a new response, a call with its idempotency key and other input, whose request
  -- digest differs, is answered 409 in every later world that keeps the files, and changes nothing. The
  -- effect of the first call is assumed to keep the journal's files, and its intent to be within the bound
  -- on reading it.
  pub execute_conflict :
      (action : String) (body : Fields) (key correlation_id : String) (callback : Callback)
      (w : World) (response : Fields)
      → ((operation_id : String) → WritesOnce (callback operation_id))
      → (execute env binding_digest action body key correlation_id callback w).0
        ≡ ok (response, false)
      → find
          (intent_name (env.sha256 key))
          (execute env binding_digest action body key correlation_id callback w).1.files
        ≢ some oversized
      → (later : World) (other : String) (other_body : Fields) (other_correlation : String)
        (other_callback : Callback)
      → Extends
          (execute env binding_digest action body key correlation_id callback w).1.files
          later.files
      → (request_digest env binding_digest action body correlation_id
          == request_digest env binding_digest other other_body other_correlation)
        ≡ false
      → execute env binding_digest other other_body key other_correlation other_callback later
        ≡ (err (control_error 409 "IDEMPOTENCY_CONFLICT"), later)
  unfolding execute by_intent ◌>>=◌ replay read_record read_found parse_record
  execute_conflict action body key correlation_id callback w response once h readable later other
        other_body other_correlation other_callback extends differs =
      let done =
        execute-Completed env binding_digest action body key correlation_id callback w response once
          h in
      let small = stored_small env _ _ done.intent_found readable in
      let intent_found = extends _ _ (done.intent_found ∙ ap some small) in
      rw (done.valid_key, intent_found, intent_found, differs)

  -- Reading the closure of an operation gives back what the call that made it returned, with the action
  -- added, in every later world that keeps the files. The effect is assumed to keep the journal's files, the
  -- closure to be within the bound on reading it, and the digest of the request to be hexadecimal.
  pub closure-execute :
      (action : String) (body : Fields) (key correlation_id : String) (callback : Callback)
      (w : World) (response : Fields)
      → ((operation_id : String) → WritesOnce (callback operation_id))
      → (execute env binding_digest action body key correlation_id callback w).0
        ≡ ok (response, false)
      → find
          (closure_name (
            operation_id_of env binding_digest
              (request_digest env binding_digest action body correlation_id)))
          (execute env binding_digest action body key correlation_id callback w).1.files
        ≢ some oversized
      → (later : World)
      → Extends
          (execute env binding_digest action body key correlation_id callback w).1.files
          later.files
      → is_operation_id (
          operation_id_of env binding_digest
            (request_digest env binding_digest action body correlation_id))
        ≡ true
      → closure env binding_digest
          (operation_id_of env binding_digest
            (request_digest env binding_digest action body correlation_id))
          later
        ≡ (ok (put response "action" (str action)), later)
  unfolding closure ◌>>=◌ read_record read_found parse_record member some_or fields_of as_fields
  closure-execute action body key correlation_id callback w response once h readable later extends
        hexadecimal =
      let done =
        execute-Completed env binding_digest action body key correlation_id callback w response once
          h in
      let small = stored_small env _ _ done.outcome.closure_found readable in
      rw
        (hexadecimal, extends _ _ (done.outcome.closure_found ∙ ap some small), done.outcome.answer)
