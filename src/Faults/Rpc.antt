-- ===== src/Faults/Rpc.antt =====
-- fault-control/fault_control.py: requests to the fixed targets, and the RPC calls of the two providers.
use zkdeal_cloud_deployer_in.Faults.Model.{
  Action, Fault, HttpReply, HttpRequest, Payload, Result, Surroundings, control_error, empty_body,
  invalid_request, not_strict, object, replied, sent, unreachable,
}
use zkdeal_cloud_deployer_in.Base.Machine.{lift, pure, ◌>>=◌, ◌>>◌}
use zkdeal_cloud_deployer_in.Base.{
  Bool, Option, String, [], false, if◌then◌else◌, ltb, nat_eq, none, not, some, suc, true, zero, ℕ,
  ◌&&◌, ◌*◌, ◌+◌, ◌∷◌,
}
use zkdeal_cloud_deployer_in.Base.Text.{codes, hex_value_from, is_hex}
use zkdeal_cloud_deployer_in.Base.Json.{
  Fields, Items, Json, arr, bool, dict, get, item, lookup, nil, null, num, obj, str,
}
use zkdeal_cloud_deployer_in.Base.Decimal.{concat}
use zkdeal_cloud_deployer_in.Base.Hexadecimal.{hex, lower_hex, skip}
use zkdeal_cloud_deployer_in.Base.Outcome.{err, ok, some_or}
use zkdeal_cloud_deployer_in.Faults.Documents.{prefixed_word}

-- A reply's status, its object if it has a body, and the digest of its bytes.
abbrev pub Response : Type 0
Response = ℕ × Option Fields × String

-- `strict_object` of the bytes that came, if any
unfoldable pub read_payload : ℕ → String → Payload → Result Response
read_payload status bytes empty_body = ok (status, none, bytes)
read_payload status bytes not_strict = err invalid_request
read_payload status bytes (object fields) = ok (status, some fields, bytes)

unfoldable pub read_reply : HttpReply → Result Response
unfolding read_payload
read_reply unreachable = err (control_error 502 "TARGET_UNAVAILABLE")
read_reply (replied status size bytes payload) =
    if ltb (4 * 1024 * 1024) size
    then err (control_error 502 "TARGET_RESPONSE_TOO_LARGE")
    else read_payload status bytes payload

abbrev pub rpc_failed : Fault
rpc_failed = control_error 502 "RPC_CONTROL_FAILED"

-- `response.get("error") is not None`
abbrev has_error : Json → Bool
has_error null = false
has_error other = true

unfoldable pub rpc_result : Response → Result Json
unfolding some_or
rpc_result (status, none, bytes) = err rpc_failed
rpc_result (status, some response, bytes) =
    if nat_eq status 200 && not (has_error (get response "error"))
    then some_or (lookup response "result") rpc_failed
    else err rpc_failed

-- What the service reads of a block: its hash in lower case, and its time.
pub record Block : Type 0 where
  pub hash : String
  pub timestamp : ℕ

-- `^0x[0-9a-fA-F]{least,most}$`
abbrev is_0x_hex : ℕ → ℕ → String → Bool
is_0x_hex least most text = prefixed_word "0x" is_hex least most text

unfoldable pub block_of_texts : Json → Json → Result Block
unfolding prefixed_word is_hex lower_hex
block_of_texts (str hash) (str timestamp) =
    if is_0x_hex 64 64 hash && is_0x_hex 1 16 timestamp
    then ok
        (record { hash = lower_hex hash; timestamp = hex_value_from 0 (skip 2 (codes timestamp)) })
    else err rpc_failed
block_of_texts hash timestamp = err rpc_failed

unfoldable pub read_block : Json → Result Block
unfolding block_of_texts
read_block (obj fields) = block_of_texts (get fields "hash") (get fields "timestamp")
read_block other = err rpc_failed

module _ (env : Surroundings) where
  unfoldable pub send : HttpRequest → Action HttpReply
  send request w =
      (ok (env.send w.history request), record w { history = sent request ∷ w.history })

  -- `http_json`
  unfoldable pub http_json :
      String → String → String → Option Fields → Option String → Action Response
  unfolding read_reply
  http_json base_url path method body token = do
    reply ← send (record {
      url = concat (base_url ∷ path ∷ []);
      method = method;
      body = body;
      token = token;
    })
    lift (read_reply reply)

  -- `rpc_json`
  unfoldable pub rpc_json : String → String → Items → ℕ → Action Json
  unfolding rpc_result
  rpc_json base_url method params request_id = do
    response ←
        http_json base_url "/" "POST"
          (some (
            dict (
              ("jsonrpc", str "2.0")
              ∷ ("id", num request_id)
              ∷ ("method", str method)
              ∷ ("params", arr params)
              ∷ [])))
          none
    lift (rpc_result response)

  -- `Controller._block`
  unfoldable pub block : String → ℕ → Action Block
  unfolding read_block
  block base_url request_id = do
    found ←
        rpc_json base_url "eth_getBlockByNumber" (item (str "latest") (item (bool false) nil))
          request_id
    lift (read_block found)

  -- `Controller._block_hash`
  unfoldable pub block_hash : String → ℕ → Action String
  block_hash base_url request_id = do found ← block base_url request_id; pure found.hash

  unfoldable pub pin_timestamp : String → Option ℕ → ℕ → ℕ → Action (Unit {0})
  pin_timestamp base_url none offset request_id = pure tt
  pin_timestamp base_url (some start) offset request_id = do
    rpc_json base_url "evm_setNextBlockTimestamp" (item (num (start + offset)) nil)
        (request_id + 500 + offset)
    pure tt

  -- The loop over `range(blocks)`, with the offset and how many are left.
  unfoldable pub mine_blocks : String → Option ℕ → ℕ → ℕ → ℕ → Action (Unit {0})
  mine_blocks base_url start request_id offset zero = pure tt
  mine_blocks base_url start request_id offset (suc left) = do
    pin_timestamp base_url start offset request_id
    rpc_json base_url "evm_mine" nil (request_id + offset + 1)
    mine_blocks base_url start request_id (offset + 1) left

  -- `Controller._mine`
  unfoldable pub mine : String → ℕ → ℕ → ℕ → Option ℕ → Action (Unit {0})
  mine base_url blocks base_fee request_id start = do
    rpc_json base_url "anvil_setNextBlockBaseFeePerGas" (item (str (hex base_fee)) nil) request_id
    mine_blocks base_url start request_id 0 blocks
