-- ===== src/Faults/Requests/Reading.antt =====
-- fault-control/fault_control.py, `Controller._fault_callback`: what a parameter that passed its check is.
use zkdeal_cloud_deployer_in.Base.{
  Bool-cases, List, Option, String, [], ap, arith, eq_iff, false, false-ne-true, inl, inr, none,
  refl, some, subst, sym, true, within, ℕ, ◌==◌, ◌∙◌, ◌∷◌, ◌≡◌, ◌≤◌,
}
use zkdeal_cloud_deployer_in.Base.Outcome.{err-ne-ok, ok, ok_injective}
use zkdeal_cloud_deployer_in.Base.Lists.{contains}
use zkdeal_cloud_deployer_in.Base.Json.{
  Json, arr, bool, float, int, negsuc, null, num, obj, pos, str, ℤ,
}
use zkdeal_cloud_deployer_in.Faults.Documents.{as_text, bounded_int, in_bounds, member_of, text_in}
use zkdeal_cloud_deployer_in.Faults.Requests.{Drill, one_of, phase_drill}

pub one_of-text :
    (value : Json) (allowed : List String) (text : String)
    → one_of value allowed ≡ ok text
    → (value ≡ str text) × (contains allowed text ≡ true)
unfolding text_in member_of as_text
one_of-text (str s) allowed text h = elim (Bool-cases (contains allowed s)) [
  | inl allowed_text ↦
      let same = ok_injective (rw (allowed_text, text_in) at h) in
      (ap str same, subst (λ t. contains allowed t ≡ true) same allowed_text)
  | inr other ↦ absurd (err-ne-ok (rw (other, text_in) at h))
]
one_of-text null allowed text h = absurd (err-ne-ok h)
one_of-text (bool b) allowed text h = absurd (err-ne-ok h)
one_of-text (int z) allowed text h = absurd (err-ne-ok h)
one_of-text (float t) allowed text h = absurd (err-ne-ok h)
one_of-text (arr items) allowed text h = absurd (err-ne-ok h)
one_of-text (obj fields) allowed text h = absurd (err-ne-ok h)

-- A member of a list of two that is not the first.
pub second_of :
    (first second text : String)
    → contains (first ∷ second ∷ []) text ≡ true
    → (text == first) ≡ false
    → text ≡ second
second_of first second text listed other = elim (Bool-cases (first == text)) [
  | inl same ↦
      absurd (false-ne-true (sym other ∙ (eq_iff text first).1 (sym ((eq_iff first text).0 same))))
  | inr different ↦ elim (Bool-cases (second == text)) [
    | inl same ↦ sym ((eq_iff second text).0 same)
    | inr neither ↦ absurd (false-ne-true (rw (different, neither) at listed))
  ]
]

pub in_bounds-bounds :
    (value : Option ℤ) (minimum maximum n : ℕ)
    → in_bounds value minimum maximum ≡ ok n
    → (minimum ≤ n) × (n ≤ maximum)
unfolding in_bounds
in_bounds-bounds none minimum maximum n h = absurd (err-ne-ok h)
in_bounds-bounds (some (negsuc k)) minimum maximum n h = absurd (err-ne-ok h)
in_bounds-bounds (some (pos k)) minimum maximum n h = ground arith

pub bounded_int-number :
    (value : Json) (minimum maximum n : ℕ)
    → bounded_int value minimum maximum ≡ ok n
    → (value ≡ num n) × (minimum ≤ n) × (n ≤ maximum)
unfolding bounded_int in_bounds
bounded_int-number (int (pos k)) minimum maximum n h =
    elim (Bool-cases (within minimum k maximum)) [
      | inl inside ↦
          let same = ok_injective (rw (inside) at h) in
          let bounds = in_bounds-bounds (some (pos k)) minimum maximum n h in
          (ap num same, bounds.0, bounds.1)
      | inr outside ↦ absurd (err-ne-ok (rw (outside) at h))
    ]
bounded_int-number (int (negsuc k)) minimum maximum n h = absurd (err-ne-ok h)
bounded_int-number null minimum maximum n h = absurd (err-ne-ok h)
bounded_int-number (bool b) minimum maximum n h = absurd (err-ne-ok h)
bounded_int-number (float t) minimum maximum n h = absurd (err-ne-ok h)
bounded_int-number (str s) minimum maximum n h = absurd (err-ne-ok h)
bounded_int-number (arr items) minimum maximum n h = absurd (err-ne-ok h)
bounded_int-number (obj fields) minimum maximum n h = absurd (err-ne-ok h)

pub phase_drill-cases :
    (phase first : String) (prepared : Json) (begin : Drill) (later : String → Drill)
    (drill : Drill) (R : Drill → Type 0)
    → (phase ≡ first → prepared ≡ null → R begin)
    → ((text : String) → (phase == first) ≡ false → prepared ≡ str text → R (later text))
    → phase_drill phase first prepared begin later ≡ ok drill
    → R drill
unfolding phase_drill
phase_drill-cases phase first null begin later drill R rb rl h =
    elim (Bool-cases (phase == first)) [
      | inl same ↦ subst R (ok_injective (rw (same) at h)) (rb ((eq_iff phase first).0 same) refl)
      | inr other ↦ absurd (err-ne-ok (rw (other) at h))
    ]
phase_drill-cases phase first (str text) begin later drill R rb rl h =
    elim (Bool-cases (phase == first)) [
      | inl same ↦ absurd (err-ne-ok (rw (same) at h))
      | inr other ↦ subst R (ok_injective (rw (other) at h)) (rl text other refl)
    ]
phase_drill-cases phase first (bool b) begin later drill R rb rl h = absurd (err-ne-ok h)
phase_drill-cases phase first (int z) begin later drill R rb rl h = absurd (err-ne-ok h)
phase_drill-cases phase first (float t) begin later drill R rb rl h = absurd (err-ne-ok h)
phase_drill-cases phase first (arr items) begin later drill R rb rl h = absurd (err-ne-ok h)
phase_drill-cases phase first (obj fields) begin later drill R rb rl h = absurd (err-ne-ok h)
