-- ===== src/Promotion/Discipline/Order.antt =====
-- scripts/promotion_controller.py: the order of the POST requests of a run, and what each waits for.
use zkdeal_cloud_deployer_in.Base.{
  Bool, List, Option, String, [], ap, false, none, refl, some, subst, sym, true, ℕ, ◌∙◌, ◌∷◌, ◌≡◌,
}
use zkdeal_cloud_deployer_in.Base.Json.{Fields}
use zkdeal_cloud_deployer_in.Promotion.Model.{
  Action, Config, Fault, History, Refusal, Request, Result, Surroundings, after, asked, check,
  continue, err, lift, not_armed, ok, pure, read_reply, request_json, ◌>>=◌,
}
use zkdeal_cloud_deployer_in.Promotion.Validate.{
  prepare_checks, validate_owner_promotion, validate_prepare,
}
use zkdeal_cloud_deployer_in.Promotion.Promote.{
  after_monitor, commit_promotion, commit_request, owner_request, prepare_request, promote,
  promote_owner, run,
}
use zkdeal_cloud_deployer_in.Promotion.Discipline.{
  NoPosts, NoPosts-emit, NoPosts-monotonic, add_post, monitor-NoPosts, posts,
}

err-ne-ok {ℓ} : {A : Type ℓ} {e : Fault} {a : A} → err e ≡ ok a → ⊥
err-ne-ok h = cc

pub ok_injective {ℓ} : {A : Type ℓ} {a b : A} → ok a ≡ ok b → a ≡ b
ok_injective h = cc

check_passed :
    (test : Bool) (refusal : Refusal) (u : Unit {0}) → check test refusal ≡ ok u → test ≡ true
check_passed true refusal u h = refl
check_passed false refusal u h = absurd (err-ne-ok h)

-- Some answer to the request was the object `value`.
abbrev pub Replied : Surroundings → Request → Fields → Type 0
Replied env r value = (h : History) × (read_reply (env.open_url h r) ≡ ok value)

-- The POST requests that a run may have sent, the newest first.
pub data Posted (env : Surroundings) (config : Config) : List Request → Type 0 where
  nothing : Posted env config []
  preparing : config.armed ≡ true → Posted env config (prepare_request env config ∷ [])
  promoting :
      (prepare : Fields)
      → config.armed ≡ true
      → Replied env (prepare_request env config) prepare
      → validate_prepare config prepare ≡ ok config.candidate_id
      → Posted env config (owner_request env config ∷ prepare_request env config ∷ [])
  committing :
      (prepare owner : Fields)
      → config.armed ≡ true
      → Replied env (prepare_request env config) prepare
      → validate_prepare config prepare ≡ ok config.candidate_id
      → Replied env (owner_request env config) owner
      → validate_owner_promotion owner ≡ ok tt
      → Posted env config (
          commit_request env config config.candidate_id (env.digest owner)
          ∷ owner_request env config
          ∷ prepare_request env config
          ∷ [])

after_value :
    (r : Result (Unit {0})) {A : Type 0} (s : Result A) (a : A) → after r s ≡ ok a → s ≡ ok a
after_value (ok u) s a h = h
after_value (err e) s a h = absurd (err-ne-ok h)

-- A validated prepare response has the identity of the configured candidate.
validated_id :
    (config : Config) (value : Fields) (id : String)
    → validate_prepare config value ≡ ok id
    → config.candidate_id ≡ id
unfolding validate_prepare
validated_id config value id h =
    ok_injective (after_value (prepare_checks config value) (ok config.candidate_id) id h)

module _ (env : Surroundings) (config : Config) where
  -- From a history whose POST requests are `sent`, those of the final one are in order.
  record InOrder {ℓ} {A : Type ℓ} (sent : List Request) (m : Action A) : Type ℓ where
    at : (h : History) → posts h ≡ sent → Posted env config (posts (m h).1)

  module _ {ℓ κ} {A : Type ℓ} {B : Type κ} {sent : List Request}
      (so_far : Posted env config sent) where
    continue-InOrder :
        (f : A → Action B) (r : Result A) (h : History)
        → ((a : A) → r ≡ ok a → InOrder sent (f a))
        → posts h ≡ sent
        → Posted env config (posts (continue r f h).1)
    continue-InOrder f (ok a) h kf e = (kf a refl).at h e
    continue-InOrder f (err x) h kf e = rw e so_far

    then_quiet :
        (m : Action A) (f : A → Action B)
        → NoPosts m
        → ((a : A) → InOrder sent (f a))
        → InOrder sent (m >>= f)
    unfolding ◌>>=◌
    then_quiet m f q kf = record {
      at = λ h e. continue-InOrder f (m h).0 (m h).1 (λ a x. kf a) (q.at h ∙ e);
    }

    -- What follows a passed validation may use it.
    then_lift :
        (r : Result A) (f : A → Action B)
        → ((a : A) → r ≡ ok a → InOrder sent (f a))
        → InOrder sent (lift r >>= f)
    unfolding ◌>>=◌
    then_lift r f kf = record { at = λ h e. continue-InOrder f r h kf e }

  module _ {κ} {B : Type κ} {sent : List Request} where
    -- A GET request leaves the row of POST requests as it is, and a POST request extends it.
    then_request :
        (r : Request) (f : Fields → Action B)
        → Posted env config (add_post r.method r sent)
        → ((value : Fields) → Replied env r value → InOrder (add_post r.method r sent) (f value))
        → InOrder sent (request_json env r >>= f)
    unfolding ◌>>=◌ request_json
    then_request r f now kf = record {
      at = λ h e.
          continue-InOrder now f (read_reply (env.open_url h r)) (asked r ∷ h) (λ v x. kf v (h, x))
            (ap (add_post r.method r) e);
    }

  module _ {A : Type 0} {sent : List Request} (so_far : Posted env config sent) where
    at_end : (a : A) → InOrder sent (pure a)
    unfolding pure
    at_end a = record { at = λ h e. rw e so_far }

  commit_promotion-InOrder :
      (first_failure : ℕ) (prepare owner : Fields)
      → config.armed ≡ true
      → Replied env (prepare_request env config) prepare
      → validate_prepare config prepare ≡ ok config.candidate_id
      → Replied env (owner_request env config) owner
      → validate_owner_promotion owner ≡ ok tt
      → InOrder
          (owner_request env config ∷ prepare_request env config ∷ [])
          (commit_promotion env config first_failure config.candidate_id (env.digest owner))
  unfolding commit_promotion
  commit_promotion-InOrder first_failure prepare owner armed p vp o vo =
      let now = committing prepare owner armed p vp o vo in
      then_request _ _ now λ commit c. then_lift now _ _ λ u v.
        then_quiet now _ _ (NoPosts-monotonic env config)
          λ moment. then_lift now _ _ λ u v. then_quiet now _ _ (NoPosts-emit _ _) λ u. at_end now _

  promote_owner-InOrder :
      (first_failure : ℕ) (prepare : Fields)
      → config.armed ≡ true
      → Replied env (prepare_request env config) prepare
      → validate_prepare config prepare ≡ ok config.candidate_id
      → InOrder
          (prepare_request env config ∷ [])
          (promote_owner env config first_failure config.candidate_id)
  unfolding promote_owner
  promote_owner-InOrder first_failure prepare armed p vp =
      let now = promoting prepare armed p vp in
      then_request _ _ now λ owner o. then_lift now _ _ λ u vo.
        then_quiet now _ _ (NoPosts-emit _ _)
          λ u. commit_promotion-InOrder first_failure prepare owner armed p vp o vo

  promote-InOrder : (first_failure : ℕ) → InOrder [] (promote env config first_failure)
  unfolding promote
  promote-InOrder first_failure = then_lift nothing _ _ λ u armed.
      then_request _ _ nothing λ standby s. then_lift nothing _ _ λ u ready.
        let now = preparing (check_passed config.armed not_armed _ armed) in
        then_request _ _ now λ prepare p. then_lift now _ _ λ id v.
          then_quiet now _ _ (NoPosts-emit _ _) λ u.
            subst
              (λ x.
                InOrder (prepare_request env config ∷ [])
                  (promote_owner env config first_failure x))
              (validated_id config prepare id v)
              (promote_owner-InOrder first_failure prepare
                (check_passed config.armed not_armed _ armed) p
                (v ∙ ap ok (sym (validated_id config prepare id v))))

  after_monitor-InOrder : (reached : Option ℕ) → InOrder [] (after_monitor env config reached)
  unfolding after_monitor ◌>>=◌
  after_monitor-InOrder none = at_end nothing none
  after_monitor-InOrder (some first_failure) = record {
    at = λ h e.
        same_history (promote env config first_failure h).0 _
          ((promote-InOrder first_failure).at h e);
  }
    where
      same_history :
          (r : Result Fields) (h : History)
          → Posted env config (posts h)
          → Posted env config (posts (continue r (λ outcome. pure (some outcome)) h).1)
      same_history (ok outcome) h p = p
      same_history (err e) h p = p

  -- Whatever the answers, a run from a history without POST requests sends at most three of them, in
  -- order: to the provider, only if the controller is armed; to the owner, only after the provider's
  -- answer passed `validate_prepare`; and the provider's commit, which carries the digest of the
  -- owner's answer, only after that answer passed `validate_owner_promotion`.
  pub run-Posted :
      (fuel : ℕ) (h : History) → posts h ≡ [] → Posted env config (posts (run env config fuel h).1)
  unfolding run
  run-Posted fuel h e =
      (then_quiet nothing _ _ (NoPosts-emit _ _) λ u.
          then_quiet nothing _ _ (monitor-NoPosts env config fuel 0 0 0) after_monitor-InOrder).at
        h e
