-- ===== src/Guard/Defs.antt =====
-- internal/agent/guard.go: protocolGuard, for both bindings. The JSON decoders and the header
-- parsing of net/http are not under this repository. The errors' messages, their details and the
-- fields of the responses that do not depend on the error are left out.
use a2abridge.A2a.{Task}
use a2abridge.TaskStore.Versioned.{get}
use a2abridge.TaskStore.Data.{Tasks, not_found, Result, ok, err, Sdk}
use a2abridge.Prelude.{
  leb, ◌==◌, if◌then◌else◌, ℤ, negsuc, Text, codes, text_eq, ℕ, Bool, true, false, ◌&&◌, ◌||◌,
  Option, none, some, [], ◌∷◌,
}
use a2abridge.Strings.{cut_prefix, trim_space, contains_rune}
use a2abridge.Guard.Version.{Carrier, check_protocol_version, pin_protocol_version}

-- What an error wraps, as far as `codesFor` tells.
pub data Cause : Type 0 where
  err_invalid_request err_task_not_found err_unsupported_operation err_version_not_supported
        err_internal :
      Cause

pub record Codes : Type 0 where
  pub rpc_code : ℤ
  pub http_status : ℕ
  pub grpc_status : Text

-- `codesFor`, with the table `protocolErrors`.
unfoldable pub codes_for : Cause → Codes
codes_for err_invalid_request = record {
  rpc_code = negsuc 32599;
  http_status = 400;
  grpc_status = codes "INVALID_ARGUMENT";
}
codes_for err_task_not_found = record {
  rpc_code = negsuc 32000;
  http_status = 404;
  grpc_status = codes "NOT_FOUND";
}
codes_for err_unsupported_operation = record {
  rpc_code = negsuc 32003;
  http_status = 400;
  grpc_status = codes "FAILED_PRECONDITION";
}
codes_for err_version_not_supported = record {
  rpc_code = negsuc 32008;
  http_status = 400;
  grpc_status = codes "FAILED_PRECONDITION";
}
codes_for err_internal = record {
  rpc_code = negsuc 32602;
  http_status = 500;
  grpc_status = codes "INTERNAL";
}

-- What reading a body gave: the bytes, the size limit, or another error.
pub data Body : Type 0 where
  bytes : Text → Body
  too_large broken : Body

-- `bodyReadError`
unfoldable pub body_read_error : Bool → ℕ × Cause
body_read_error over_limit =
    if over_limit then (413, err_invalid_request) else (400, err_invalid_request)

pub record Request : Type 0 where
  pub verb : Text  -- Method
  pub path : Text
  pub carrier : Carrier
  pub body : Body  -- where a request has no body, no bytes

pub record RpcEnvelope : Type 0 where
  pub jsonrpc : Text
  pub id : Text  -- the raw bytes
  pub method : Text
  pub params : Text

-- A request goes on to the SDK, or is answered: on the JSON-RPC binding with an HTTP status, the
-- echoed id and an error code, on the REST binding with a status and the task in question.
pub data Outcome : Type 0 where
  passed : Request → Outcome
  rpc_error : ℕ → Option Text → Cause → ℤ → Outcome
  rest_error : ℕ → Cause → Text → Text → Outcome

unfoldable pub write_jsonrpc_error : ℕ → Option Text → Cause → Outcome
unfolding codes_for
write_jsonrpc_error status id e = rpc_error status id e (codes_for e).rpc_code

-- Status 0 is the status of the error.
unfoldable pub write_rest_error : ℕ → Cause → Text → Outcome
unfolding codes_for
write_rest_error status e id =
    rest_error (if status == 0 then (codes_for e).http_status else status) e
      (codes_for e).grpc_status id

unfoldable pub rest_tasks_prefix : Text
rest_tasks_prefix = codes "/tasks/"

unfoldable pub subscribe_action_suffix : Text
subscribe_action_suffix = codes ":subscribe"

-- strings.CutSuffix
unfoldable pub cut_suffix : Text → Text → Option Text
cut_suffix [] p = if text_eq [] p then some [] else none
cut_suffix (c ∷ s) p =
    let rest = cut_suffix s p in
    if text_eq (c ∷ s) p then some [] else elim rest [ none ↦ none | some front ↦ some (c ∷ front) ]

unfoldable pub task_of_rest : Option Text → Option Text
task_of_rest none = none
task_of_rest (some []) = none
task_of_rest (some (c ∷ id)) = some (c ∷ id)

unfoldable pub subscribe_rest : Option Text → Option Text
subscribe_rest none = none
subscribe_rest (some rest) =
    if contains_rune rest b'/' then none else task_of_rest (cut_suffix rest subscribe_action_suffix)

-- `subscribeTaskID`
unfoldable pub subscribe_task_id : Text → Option Text
subscribe_task_id path = subscribe_rest (cut_prefix path rest_tasks_prefix)

-- `isRPCID`, on raw bytes. Raw JSON has only the ASCII spaces,
-- and 0x22 is the double quote.
unfoldable pub is_rpc_id : Text → Bool
unfolding trim_space
is_rpc_id raw = elim (trim_space raw) [
  | [] ↦ false
  | c ∷ s ↦ c == 0x22 || (c == b'-' || (leb b'0' c && leb c b'9'))
]

-- protocolGuard, with the SDK's version, and the decoders of an envelope and of the parameters of
-- SubscribeToTask (its task id); none is an error.
pub record Guard : Type 0 where
  pub served : Text
  pub streaming : Bool
  pub decode_envelope : Text → Option RpcEnvelope
  pub decode_params : Text → Option Text

-- The id that a reply echoes: none for a request that is not understood.
unfoldable pub envelope_id : Option RpcEnvelope → Option Text
envelope_id none = none
envelope_id (some e) = if text_eq e.jsonrpc (codes "2.0") && is_rpc_id e.id then some e.id else none

unfoldable pub pinned : Guard → Request → Request
unfolding pin_protocol_version
pinned g r = record r { carrier = pin_protocol_version g.served r.carrier }

-- A request goes on unless its subscription is refused.
unfoldable pub answer_rest : Request → Text → Option Cause → Outcome
answer_rest r id none = passed r
answer_rest r id (some e) = write_rest_error 0 e id

unfoldable pub answer_jsonrpc : Request → Text → Option Cause → Outcome
answer_jsonrpc r id none = passed r
answer_jsonrpc r id (some e) = write_jsonrpc_error 200 (some id) e

-- `checkSubscribable` on what the agent's task store returned.
unfoldable pub subscribable : Sdk → Result (Task × ℕ) → Option Cause
subscribable sdk (err not_found) = some err_task_not_found
subscribable sdk (err _) = none
subscribable sdk (ok (t, v)) =
    if sdk.terminal t.status.state then some err_unsupported_operation else none

module _ (sdk : Sdk) (g : Guard) (tasks : Tasks) where
  unfoldable pub check_subscribable : Text → Option Cause
  check_subscribable id = subscribable sdk (get sdk id tasks)

  unfoldable pub gate_path : Request → Option Text → Outcome
  gate_path r none = passed r
  gate_path r (some id) = answer_rest r id (check_subscribable id)

  -- The rest of `rest` behind the pinning.
  unfoldable pub gate_rest : Request → Outcome
  gate_rest r =
      if g.streaming && (text_eq r.verb (codes "GET") || text_eq r.verb (codes "POST"))
      then gate_path r (subscribe_task_id r.path)
      else passed r

  unfoldable pub version_rest : Request → Outcome
  version_rest r =
      if check_protocol_version g.served r.carrier
      then gate_rest (pinned g r)
      else write_rest_error 0 err_version_not_supported []

  -- `rest`, by what reading the body gave.
  unfoldable pub rest_on : Request → Body → Outcome
  rest_on r (bytes b) = version_rest r
  rest_on r too_large = let (status, e) = body_read_error true in write_rest_error status e []
  rest_on r broken = let (status, e) = body_read_error false in write_rest_error status e []

  unfoldable pub rest : Request → Outcome
  unfolding rest_on
  rest r = rest_on r r.body

  unfoldable pub gate_params : Request → Text → Option Text → Outcome
  gate_params r id none = passed r
  gate_params r id (some []) = passed r
  gate_params r id (some (c ∷ task)) = answer_jsonrpc r id (check_subscribable (c ∷ task))

  unfoldable pub gate_method : Request → RpcEnvelope → Option Text → Outcome
  gate_method r e none = passed r
  gate_method r e (some id) =
      if g.streaming && text_eq e.method (codes "SubscribeToTask")
      then gate_params r id (g.decode_params e.params)
      else passed r

  unfoldable pub gate_jsonrpc : Request → Option RpcEnvelope → Outcome
  gate_jsonrpc r none = passed r
  gate_jsonrpc r (some e) = gate_method r e (envelope_id (some e))

  unfoldable pub version_jsonrpc : Request → Option RpcEnvelope → Outcome
  version_jsonrpc r env =
      if check_protocol_version g.served r.carrier
      then gate_jsonrpc (pinned g r) env
      else write_jsonrpc_error 200 (envelope_id env) err_version_not_supported

  -- `jsonrpc`, by what reading the body gave.
  unfoldable pub jsonrpc_on : Request → Body → Outcome
  jsonrpc_on r (bytes b) = version_jsonrpc r (g.decode_envelope b)
  jsonrpc_on r too_large =
      let (status, e) = body_read_error true in write_jsonrpc_error status none e
  jsonrpc_on r broken = let (status, e) = body_read_error false in write_jsonrpc_error status none e

  unfoldable pub jsonrpc : Request → Outcome
  unfolding jsonrpc_on
  jsonrpc r = jsonrpc_on r r.body
