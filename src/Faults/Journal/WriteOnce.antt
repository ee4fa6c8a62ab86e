-- ===== src/Faults/Journal/WriteOnce.antt =====
-- fault-control/fault_control.py, `durable_create`: how the files of the journal grow.
use zkdeal_cloud_deployer_in.Faults.Model.{
  Action, Content, Files, Surroundings, World, document, find, garbled, oversized,
}
use zkdeal_cloud_deployer_in.Base.Machine.Keeps.{Keeps}
use zkdeal_cloud_deployer_in.Base.{
  Bool, Bool-cases, Option, String, [], eq_iff, eq_refl, false, false-ne-true, inl, inr, leb, none,
  refl, some, subst, sym, true, ◌*◌, ◌==◌, ◌∙◌, ◌∷◌, ◌≡◌, ◌≢◌,
}
use zkdeal_cloud_deployer_in.Faults.Journal.Keeps.{
  KeepsClock, KeepsNew, durable_create-Keeps, execute-Keeps, finish-Keeps, utc_now-Keeps,
}
use zkdeal_cloud_deployer_in.Faults.Journal.{
  Callback, create_if, durable_create, execute, finish, stored, utc_now,
}
use zkdeal_cloud_deployer_in.Base.Json.{Fields}
use zkdeal_cloud_deployer_in.Base.Outcome.{err-ne-ok, ok, ok_injective}

-- Every file stays, with what it holds.
abbrev pub Extends : Files → Files → Type 0
Extends before after =
    (name : String) (content : Content)
    → find name before ≡ some content
    → find name after ≡ some content

pub Extends-refl : (files : Files) → Extends files files
Extends-refl files name content h = h

pub Extends-trans : (a b c : Files) → Extends a b → Extends b c → Extends a c
Extends-trans a b c ab bc name content h = bc name content (ab name content h)

some-ne-none : (content : Content) → some content ≡ none → ⊥
some-ne-none content h = cc

Extends-new :
    (files : Files) (name : String) (content : Content)
    → find name files ≡ none
    → Extends files ((name, content) ∷ files)
unfolding find
Extends-new files name content fresh other found h = elim (Bool-cases (name == other)) [
  | inl same ↦
      let e = subst (λ n. find n files ≡ none) ((eq_iff name other).0 same) fresh in
      absurd (some-ne-none found (sym h ∙ e))
  | inr different ↦ rw (different) h
]

-- An action that changes and removes no file.
abbrev pub WritesOnce : {A : Type 0} → Action A → Type 0
WritesOnce m = (start : Files) → Keeps (λ w. Extends start w.files) m

pub find_first :
    (files : Files) (name : String) (content : Content)
    → find name ((name, content) ∷ files) ≡ some content
unfolding find
find_first files name content = rw (eq_refl name)

-- Every record of the journal is within the bound of `read_record`.
abbrev pub Readable : Files → Type 0
Readable files = (name : String) → find name files ≢ some oversized

-- The test of that.
unfoldable pub all_readable : Files → Bool
all_readable [] = true
all_readable ((name, document fields) ∷ rest) = all_readable rest
all_readable ((name, garbled) ∷ rest) = all_readable rest
all_readable ((name, oversized) ∷ rest) = false

document-ne-oversized : (fields : Fields) → some (document fields) ≡ some oversized → ⊥
document-ne-oversized fields h = cc

garbled-ne-oversized : some garbled ≡ some oversized → ⊥
garbled-ne-oversized h = cc

none-ne-some : {c : Content} → none ≡ some c → ⊥
none-ne-some h = cc

pub all_readable-Readable : (files : Files) → all_readable files ≡ true → Readable files
unfolding find all_readable
all_readable-Readable [] h name = none-ne-some
all_readable-Readable ((other, document fields) ∷ rest) h name = elim (Bool-cases (other == name)) [
  | inl same ↦ rw (same) (document-ne-oversized fields)
  | inr different ↦ rw (different) (all_readable-Readable rest h name)
]
all_readable-Readable ((other, garbled) ∷ rest) h name = elim (Bool-cases (other == name)) [
  | inl same ↦ rw (same) garbled-ne-oversized
  | inr different ↦ rw (different) (all_readable-Readable rest h name)
]
all_readable-Readable ((other, oversized) ∷ rest) h name = absurd (false-ne-true h)

-- A record that was written, and that is not beyond the bound, is read back as it was.
pub stored_small :
    (env : Surroundings) (value : Fields) (found : Option Content)
    → found ≡ some (stored env value)
    → found ≢ some oversized
    → stored env value ≡ document value
unfolding stored
stored_small env value found e small =
    elim (Bool-cases (leb (env.canonical_size value) (1024 * 1024))) [
      | inl within_bound ↦ rw (within_bound) refl
      | inr beyond ↦ absurd (small (rw (beyond) at e))
    ]

module _ (start : Files) where
  Extends-clock : KeepsClock (λ w. Extends start w.files)
  Extends-clock w p = p

  Extends-record : KeepsNew (λ w. Extends start w.files)
  Extends-record name content w fresh p =
      Extends-trans start w.files ((name, content) ∷ w.files) p
        (Extends-new w.files name content fresh)

module _ (env : Surroundings) where
  pub utc_now-WritesOnce : WritesOnce (utc_now env)
  utc_now-WritesOnce start = utc_now-Keeps env (Extends-clock start) (Extends-record start)

  pub durable_create-WritesOnce :
      (name : String) (value : Fields) → WritesOnce (durable_create env name value)
  durable_create-WritesOnce name value start =
      durable_create-Keeps env (Extends-clock start) (Extends-record start) name value

  -- A file that was created was not there, and is there afterwards.
  create_if-Created :
      (writable : Bool) (found : Option Content) (name : String) (value : Fields) (w : World)
      (digest : String)
      → (create_if env writable found name value w).0 ≡ ok digest
      → (found ≡ none)
        × (digest ≡ env.digest value)
        × (find name (create_if env writable found name value w).1.files ≡ some (stored env value))
  unfolding create_if
  create_if-Created writable (some content) name value w digest h = absurd (err-ne-ok h)
  create_if-Created false none name value w digest h = absurd (err-ne-ok h)
  create_if-Created true none name value w digest h =
      (refl, sym (ok_injective h), find_first w.files name (stored env value))

  pub durable_create-Created :
      (name : String) (value : Fields) (w : World) (digest : String)
      → (durable_create env name value w).0 ≡ ok digest
      → (find name w.files ≡ none)
        × (digest ≡ env.digest value)
        × (find name (durable_create env name value w).1.files ≡ some (stored env value))
  unfolding durable_create
  durable_create-Created name value w digest h =
      create_if-Created (env.can_write w.history name) (find name w.files) name value w digest h

  -- A name that is taken stops a new record.
  pub durable_create-Taken :
      (name : String) (value : Fields) (w : World) (content : Content) (digest : String)
      → find name w.files ≡ some content
      → (durable_create env name value w).0 ≡ ok digest
      → ⊥
  durable_create-Taken name value w content digest taken h =
      some-ne-none content (sym taken ∙ (durable_create-Created name value w digest h).0)

module _ (env : Surroundings) (binding_digest : String) (callback : Callback)
    (once : (operation_id : String) → WritesOnce (callback operation_id)) where
  pub finish-WritesOnce :
      (action digest correlation_id : String) (intent : Fields)
      → WritesOnce (finish env binding_digest action digest correlation_id intent callback)
  finish-WritesOnce action digest correlation_id intent start =
      finish-Keeps env (Extends-clock start) (Extends-record start) binding_digest callback
        (λ id. once id start) action digest correlation_id intent

  pub execute-WritesOnce :
      (action : String) (body : Fields) (key correlation_id : String)
      → WritesOnce (execute env binding_digest action body key correlation_id callback)
  execute-WritesOnce action body key correlation_id start =
      execute-Keeps env (Extends-clock start) (Extends-record start) binding_digest callback
        (λ id. once id start) action body key correlation_id
