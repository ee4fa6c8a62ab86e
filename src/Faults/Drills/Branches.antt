-- ===== src/Faults/Drills/Branches.antt =====
-- fault-control/fault_control.py, `Controller._mine` on both providers: the calls of a branch.
use zkdeal_cloud_deployer_in.Faults.Model.{
  Action, Event, History, HttpRequest, Result, Surroundings, World, sent,
}
use zkdeal_cloud_deployer_in.Base.Machine.{bind-ok, continue, lift, pure, ◌>>=◌, ◌>>◌}
use zkdeal_cloud_deployer_in.Base.{
  List, String, [], ap, none, refl, some, suc, zero, ℕ, ◌+◌, ◌∙◌, ◌∷◌, ◌≡◌,
}
use zkdeal_cloud_deployer_in.Base.Json.{Items, Json, arr, dict, item, nil, num, str}
use zkdeal_cloud_deployer_in.Base.Decimal.{concat}
use zkdeal_cloud_deployer_in.Base.Hexadecimal.{hex}
use zkdeal_cloud_deployer_in.Base.Outcome.{err, err-ne-ok, ok}
use zkdeal_cloud_deployer_in.Faults.Rpc.{
  Response, http_json, mine, mine_blocks, pin_timestamp, read_reply, rpc_json, rpc_result, send,
}
use zkdeal_cloud_deployer_in.Faults.Topology.{Topology}
use zkdeal_cloud_deployer_in.Faults.Drills.Reorg.{mine_both}

-- A call with its number.
abbrev pub Call : Type 0
Call = ℕ × String × Items

abbrev pub sent_call : String → Call → Event
sent_call base_url (id, method, params) = sent (record {
  url = concat (base_url ∷ "/" ∷ []);
  method = "POST";
  body = some (
      dict (
        ("jsonrpc", str "2.0")
        ∷ ("id", num id)
        ∷ ("method", str method)
        ∷ ("params", arr params)
        ∷ []));
  token = none;
})

-- A branch as it is meant: each block's time is pinned one second after the one before, and then mined.
abbrev pub block_calls : ℕ → ℕ → ℕ → ℕ → List Call
block_calls start id offset zero = []
block_calls start id offset (suc left) =
    (id + 500 + offset, "evm_setNextBlockTimestamp", item (num (start + offset)) nil)
    ∷ (id + offset + 1, "evm_mine", nil)
    ∷ block_calls start id (offset + 1) left

abbrev pub branch_calls : ℕ → ℕ → ℕ → ℕ → List Call
branch_calls blocks base_fee start id =
    (id, "anvil_setNextBlockBaseFeePerGas", item (str (hex base_fee)) nil)
    ∷ block_calls start id 0 blocks

-- The calls without their numbers.
abbrev pub unnumbered : List Call → List (String × Items)
unnumbered [] = []
unnumbered ((id, method, params) ∷ rest) = (method, params) ∷ unnumbered rest

-- A history after calls, the first of them first.
abbrev pub after_calls : String → List Call → History → History
after_calls base_url [] history = history
after_calls base_url (call ∷ rest) history =
    after_calls base_url rest (sent_call base_url call ∷ history)

block_calls-unnumbered :
    (start id other offset left : ℕ)
    → unnumbered (block_calls start id offset left)
      ≡ unnumbered (block_calls start other offset left)
block_calls-unnumbered start id other offset zero = refl
block_calls-unnumbered start id other offset (suc left) =
    ap
      (λ rest.
        ("evm_setNextBlockTimestamp", item (num (start + offset)) nil) ∷ ("evm_mine", nil) ∷ rest)
      (block_calls-unnumbered start id other (offset + 1) left)

-- The result that a reply is read as.
abbrev pub value_of_response : Result Response → Result Json
value_of_response (ok response) = rpc_result response
value_of_response (err fault) = err fault

-- Every request is answered with a result.
abbrev pub Answered : Surroundings → Type 0
Answered env =
    (history : History) (request : HttpRequest)
    → (value : Json) × (value_of_response (read_reply (env.send history request)) ≡ ok value)

response-value :
    (r : Result Response) (w : World) (value : Json)
    → value_of_response r ≡ ok value
    → continue r (λ response. lift (rpc_result response)) w ≡ (ok value, w)
unfolding lift
response-value (ok response) w value h = ap (λ x. (x, w)) h
response-value (err fault) w value h = absurd (err-ne-ok h)

module _ (env : Surroundings) (answers : Answered env) where
  rpc_json-answered :
      (base_url method : String) (params : Items) (id : ℕ) (w : World)
      → (value : Json) × (rpc_json env base_url method params id w
          ≡ (ok value, record w { history = sent_call base_url (id, method, params) ∷ w.history }))
  unfolding rpc_json http_json send ◌>>=◌
  rpc_json-answered base_url method params id w =
      let request : HttpRequest = record {
        url = concat (base_url ∷ "/" ∷ []);
        method = "POST";
        body = some (
            dict (
              ("jsonrpc", str "2.0")
              ∷ ("id", num id)
              ∷ ("method", str method)
              ∷ ("params", arr params)
              ∷ []));
        token = none;
      } in
      let (value, h) = answers w.history request in
      (value, response-value (read_reply (env.send w.history request)) _ value h)

  -- A call whose result is not used is followed by the rest.
  call_then :
      {A : Type 0} (base_url method : String) (params : Items) (id : ℕ) (k : Action A) (w : World)
      → ((rpc_json env base_url method params id >> k) w)
        ≡ k (record w { history = sent_call base_url (id, method, params) ∷ w.history })
  call_then base_url method params id k w =
      let (value, h) = rpc_json-answered base_url method params id w in
      bind-ok _ (λ x. k) w _ value h

  mine_blocks-calls :
      (base_url : String) (start id offset left : ℕ) (w : World)
      → mine_blocks env base_url (some start) id offset left w ≡ (
        ok tt,
        record w { history = after_calls base_url (block_calls start id offset left) w.history },
      )
  unfolding mine_blocks pure pin_timestamp ◌>>=◌
  mine_blocks-calls base_url start id offset zero w = refl
  mine_blocks-calls base_url start id offset (suc left) w =
      let pinned : World = record w {
        history =
            sent_call base_url
              (id + 500 + offset, "evm_setNextBlockTimestamp", item (num (start + offset)) nil)
            ∷ w.history;
      } in
      bind-ok (pin_timestamp env base_url (some start) offset id) _ w pinned tt (
        call_then base_url "evm_setNextBlockTimestamp" (item (num (start + offset)) nil)
          (id + 500 + offset) (pure tt) w)
      ∙ call_then base_url "evm_mine" nil (id + offset + 1)
          (mine_blocks env base_url (some start) id (offset + 1) left) pinned
      ∙ mine_blocks-calls base_url start id (offset + 1) left _

  mine-calls :
      (base_url : String) (blocks base_fee id start : ℕ) (w : World)
      → mine env base_url blocks base_fee id (some start) w ≡ (
        ok tt,
        record w {
          history = after_calls base_url (branch_calls blocks base_fee start id) w.history;
        },
      )
  unfolding mine
  mine-calls base_url blocks base_fee id start w =
      call_then base_url "anvil_setNextBlockBaseFeePerGas" (item (str (hex base_fee)) nil) id _ w
      ∙ mine_blocks-calls base_url start id 0 blocks _

  -- Where every request is answered with a result, mining a branch on both providers returns, sends
  -- provider a and then provider b the calls of the branch and nothing else, and the calls are the same
  -- for both but for their numbers.
  pub mine_both-calls :
      (binding_digest : String) (topology : Topology) (operation_id : String)
      (depth base_fee timestamp id_a id_b : ℕ) (w : World)
      → (mine_both env binding_digest topology operation_id depth base_fee timestamp id_a id_b w ≡ (
        ok tt,
        record w {
          history =
              after_calls topology.rpc_b
                (branch_calls depth base_fee timestamp id_b)
                (after_calls topology.rpc_a (branch_calls depth base_fee timestamp id_a) w.history);
        },
      ))
        × (unnumbered (branch_calls depth base_fee timestamp id_a)
            ≡ unnumbered (branch_calls depth base_fee timestamp id_b))
  unfolding mine_both
  mine_both-calls binding_digest topology operation_id depth base_fee timestamp id_a id_b w = (
    bind-ok (mine env topology.rpc_a depth base_fee id_a (some timestamp)) _ w _ tt
          (mine-calls topology.rpc_a depth base_fee id_a timestamp w)
        ∙ mine-calls topology.rpc_b depth base_fee id_b timestamp _,
    ap (λ rest. ("anvil_setNextBlockBaseFeePerGas", item (str (hex base_fee)) nil) ∷ rest)
        (block_calls-unnumbered timestamp id_a id_b 0 depth),
  )
