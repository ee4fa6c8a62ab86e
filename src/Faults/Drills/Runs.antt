-- ===== src/Faults/Drills/Runs.antt =====
-- fault-control/fault_control.py, `Controller`: the parts of a drill that returned.
use zkdeal_cloud_deployer_in.Faults.Model.{
  Action, Content, Fault, Surroundings, World, document, find, garbled, oversized,
}
use zkdeal_cloud_deployer_in.Base.Machine.{◌>>=◌}
use zkdeal_cloud_deployer_in.Base.Machine.Ran.{Ran, bind-Ran, pure-Ran, require-Ran}
use zkdeal_cloud_deployer_in.Base.{
  Bool, Option, String, ap, arith, false, none, not, some, subst, sym, true, ◌∙◌, ◌≡◌,
}
use zkdeal_cloud_deployer_in.Base.Json.{Fields, Json, arr, bool, float, int, null, obj, str}
use zkdeal_cloud_deployer_in.Base.Outcome.{err-ne-ok, ok, ok_injective}
use zkdeal_cloud_deployer_in.Faults.Journal.{closure_name, parse_record, read_found, read_record}
use zkdeal_cloud_deployer_in.Faults.Documents.{as_fields}
use zkdeal_cloud_deployer_in.Faults.Topology.{Topology}
use zkdeal_cloud_deployer_in.Faults.Drills.{prior_closure}

pub not-true : (b : Bool) → not b ≡ true → b ≡ false
not-true b e = ground arith

read_found-document :
    (found : Option Content) (fields : Fields)
    → read_found found ≡ ok fields
    → found ≡ some (document fields)
unfolding read_found parse_record
read_found-document none fields h = absurd (err-ne-ok h)
read_found-document (some (document value)) fields h = ap (λ d. some (document d)) (ok_injective h)
read_found-document (some garbled) fields h = absurd (err-ne-ok h)
read_found-document (some oversized) fields h = absurd (err-ne-ok h)

pub returned : {A : Type 0} (m : Action A) (w : World) (a : A) → (m w).0 ≡ ok a → Ran m w a (m w).1
returned m w a h = ap (λ r. (r, (m w).1)) h

-- The same run, with the answer and the end by their other names.
pub same_answer :
    {A : Type 0} (m : Action A) (w u v : World) (a b : A)
    → u ≡ v
    → b ≡ a
    → Ran m w b u
    → Ran m w a v
same_answer m w u v a b ends answers ran =
    ran ∙ (ap (λ y. (ok b, y)) ends ∙ ap (λ x. (ok x, v)) answers)

pub as_fields-obj :
    (value : Json) (fault : Fault) (fields : Fields)
    → as_fields value fault ≡ ok fields
    → value ≡ obj fields
unfolding as_fields
as_fields-obj (obj fields) fault other h = ap obj (ok_injective h)
as_fields-obj null fault other h = absurd (err-ne-ok h)
as_fields-obj (bool b) fault other h = absurd (err-ne-ok h)
as_fields-obj (int z) fault other h = absurd (err-ne-ok h)
as_fields-obj (float t) fault other h = absurd (err-ne-ok h)
as_fields-obj (str s) fault other h = absurd (err-ne-ok h)
as_fields-obj (arr items) fault other h = absurd (err-ne-ok h)

module _ (env : Surroundings) (binding_digest : String) (topology : Topology) where
  -- The closure of an earlier operation is read from its file, and nothing else happens.
  pub prior_closure-Ran :
      {A G : Type 0} (prepared action : String) (f : Fields → Action A) (w : World) (a : A)
      (v : World)
      → Ran (prior_closure env binding_digest topology prepared action >>= f) w a v
      → ((closed : Fields)
          → find (closure_name prepared) w.files ≡ some (document closed)
          → Ran (f closed) w a v
          → G)
      → G
  unfolding prior_closure read_record
  prior_closure-Ran prepared action f w a v h k = bind-Ran _ _ _ _ _ h λ closed u ran rest.
      require-Ran _ _ _ _ _ _ ran λ valid reading.
        bind-Ran (read_record (closure_name prepared)) _ _ _ _ reading λ value x found checked.
          require-Ran _ _ _ _ _ _ checked λ belongs ended. pure-Ran _ _ _ _ ended λ same unmoved.
            k closed (read_found-document _ _ (ap (λ r. r.0) found ∙ ap ok same))
              (subst (λ y. Ran (f closed) y a v) (sym (ap (λ r. r.1) found ∙ unmoved)) rest)
