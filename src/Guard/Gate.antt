-- ===== src/Guard/Gate.antt =====
-- internal/agent/guard.go: what the two bindings answer to a subscription.
use a2abridge.A2a.{Task}
use a2abridge.Prelude.{
  Bool-cases, negsuc, if◌then◌else◌, Text, codes, text_eq, lookup, ℕ, ◌≡◌, refl, sym, ap, ◌∙◌, ◌≢◌,
  inl, inr, Bool, true, false, ◌||◌, Option, none, some, [], ◌∷◌, arith,
}
use a2abridge.TaskStore.Data.{
  TtlEntry, Tasks, clone_failed, not_found, Result, ok, err, Sdk, SdkLaws,
}
use a2abridge.TaskStore.Versioned.{get}
use a2abridge.Guard.Version.{check_protocol_version}
use a2abridge.Guard.Defs.{
  Cause, err_task_not_found, err_unsupported_operation, Body, bytes, too_large, broken, Request,
  RpcEnvelope, Outcome, passed, rpc_error, rest_error, codes_for, write_jsonrpc_error,
  write_rest_error, subscribe_task_id, Guard, envelope_id, pinned, answer_rest, answer_jsonrpc,
  subscribable, check_subscribable, gate_path, gate_rest, version_rest, rest_on, rest, gate_params,
  gate_method, gate_jsonrpc, version_jsonrpc, jsonrpc_on, jsonrpc,
}
use a2abridge.Guard.Subscribe.{IsTaskId, subscribe_path, subscribe_complete}

-- Why a subscription to the task of an entry is refused, if it is.
abbrev pub refusal : Sdk → Option TtlEntry → Option Cause
refusal sdk none = some err_task_not_found
refusal sdk (some e) =
    if sdk.terminal e.task.status.state then some err_unsupported_operation else none

-- The replies of the A2A specification to a subscription, by the entry of the task, on REST and on
-- JSON-RPC.
abbrev pub rest_reply : Sdk → Request → Text → Option TtlEntry → Outcome
rest_reply sdk r task none = rest_error 404 err_task_not_found (codes "NOT_FOUND") task
rest_reply sdk r task (some e) =
    if sdk.terminal e.task.status.state
    then rest_error 400 err_unsupported_operation (codes "FAILED_PRECONDITION") task
    else passed r

abbrev pub rpc_reply : Sdk → Request → Text → Option TtlEntry → Outcome
rpc_reply sdk r id none = rpc_error 200 (some id) err_task_not_found (negsuc 32000)
rpc_reply sdk r id (some e) =
    if sdk.terminal e.task.status.state
    then rpc_error 200 (some id) err_unsupported_operation (negsuc 32003)
    else passed r

-- Why a request does not go on.
abbrev pub cause_of : Outcome → Option Cause
cause_of (passed r) = none
cause_of (rpc_error status id e code) = some e
cause_of (rest_error status e name task) = some e

abbrev pub is_bytes : Body → Bool
is_bytes (bytes b) = true
is_bytes too_large = false
is_bytes broken = false

-- A request that asks the REST binding for a subscription to a task, in an accepted version.
pub record SubscribesRest (g : Guard) (r : Request) (id : Text) : Type 0 where
  pub read : is_bytes r.body ≡ true
  pub version : check_protocol_version g.served r.carrier ≡ true
  pub streams : g.streaming ≡ true
  pub verb : (text_eq r.verb (codes "GET") || text_eq r.verb (codes "POST")) ≡ true
  pub named : IsTaskId id
  pub at_path : r.path ≡ subscribe_path id

-- A request that asks the JSON-RPC binding for one, with a JSON-RPC id.
pub record SubscribesRpc (g : Guard) (r : Request) (id task : Text) : Type 0 where
  pub content : Text
  pub envelope : RpcEnvelope
  pub read : r.body ≡ bytes content
  pub version : check_protocol_version g.served r.carrier ≡ true
  pub streams : g.streaming ≡ true
  pub decoded : g.decode_envelope content ≡ some envelope
  pub understood : envelope_id (some envelope) ≡ some id
  pub method : text_eq envelope.method (codes "SubscribeToTask") ≡ true
  pub names : g.decode_params envelope.params ≡ some task
  pub named : task ≢ []

module _ (sdk : Sdk) (g : Guard) (tasks : Tasks) where
  subscribable-refusal :
      (id : Text) → SdkLaws sdk → check_subscribable sdk g tasks id ≡ refusal sdk (lookup id tasks)
  unfolding check_subscribable get
  subscribable-refusal id laws = go (lookup id tasks)
    where
      go :
          (o : Option TtlEntry)
          → subscribable sdk (elim o as (λ x. Result (Task × ℕ)) [
            | none ↦ err not_found
            | some stored ↦ elim (sdk.clone stored.task) as (λ x. Result (Task × ℕ)) [
              | none ↦ err clone_failed
              | some cp ↦ ok (cp, stored.version)
            ]
          ])
            ≡ refusal sdk o
      go none = unfold subscribable in refl
      go (some e) = unfold subscribable in rw (laws.clone-eq e.task) refl

  rest-bytes :
      (r : Request) (b : Body)
      → is_bytes b ≡ true
      → rest_on sdk g tasks r b ≡ version_rest sdk g tasks r
  unfolding rest_on
  rest-bytes r (bytes b) h = refl
  rest-bytes r too_large h = absurd (grind arith)
  rest-bytes r broken h = absurd (grind arith)

  gate_rest-subscribes :
      (r : Request) (id : Text)
      → g.streaming ≡ true
      → (text_eq r.verb (codes "GET") || text_eq r.verb (codes "POST")) ≡ true
      → subscribe_task_id r.path ≡ some id
      → gate_rest sdk g tasks r ≡ answer_rest r id (check_subscribable sdk g tasks id)
  unfolding gate_rest
  gate_rest-subscribes r id s m n = rw (s, m, n) (unfold gate_path in refl)

  rest-accepted :
      (r : Request)
      → check_protocol_version g.served r.carrier ≡ true
      → version_rest sdk g tasks r ≡ gate_rest sdk g tasks (pinned g r)
  unfolding version_rest
  rest-accepted r h = rw h

  rest-subscribes :
      (r : Request) (id : Text)
      → SdkLaws sdk
      → SubscribesRest g r id
      → rest sdk g tasks r ≡ answer_rest (pinned g r) id (refusal sdk (lookup id tasks))
  unfolding rest
  rest-subscribes r id laws q =
      rest-bytes r r.body q.read
      ∙ rest-accepted r q.version
      ∙ gate_rest-subscribes (pinned g r) id q.streams (unfold pinned in q.verb)
          (unfold pinned in (ap subscribe_task_id q.at_path ∙ subscribe_complete id q.named))
      ∙ ap (answer_rest (pinned g r) id) (subscribable-refusal id laws)

  rpc-accepted :
      (r : Request) (env : Option RpcEnvelope)
      → check_protocol_version g.served r.carrier ≡ true
      → version_jsonrpc sdk g tasks r env ≡ gate_jsonrpc sdk g tasks (pinned g r) env
  unfolding version_jsonrpc
  rpc-accepted r env h = rw h

  gate_method-subscribes :
      (r : Request) (e : RpcEnvelope) (id : Text)
      → g.streaming ≡ true
      → text_eq e.method (codes "SubscribeToTask") ≡ true
      → gate_method sdk g tasks r e (some id)
        ≡ gate_params sdk g tasks r id (g.decode_params e.params)
  unfolding gate_method
  gate_method-subscribes r e id s m = rw (s, m)

  gate_params-named :
      (r : Request) (id task : Text)
      → task ≢ []
      → gate_params sdk g tasks r id (some task)
        ≡ answer_jsonrpc r id (check_subscribable sdk g tasks task)
  unfolding gate_params
  gate_params-named r id [] n = absurd (n refl)
  gate_params-named r id (c ∷ task) n = refl

  rpc-subscribes :
      (r : Request) (id task : Text)
      → SdkLaws sdk
      → SubscribesRpc g r id task
      → jsonrpc sdk g tasks r ≡ answer_jsonrpc (pinned g r) id (refusal sdk (lookup task tasks))
  unfolding jsonrpc jsonrpc_on gate_jsonrpc
  rpc-subscribes r id task laws q =
      let p = pinned g r in
      ap (jsonrpc_on sdk g tasks r) q.read
      ∙ rpc-accepted r (g.decode_envelope q.content) q.version
      ∙ ap (gate_jsonrpc sdk g tasks p) q.decoded
      ∙ ap (gate_method sdk g tasks p q.envelope) q.understood
      ∙ gate_method-subscribes p q.envelope id q.streams q.method
      ∙ ap (gate_params sdk g tasks p id) q.names
      ∙ gate_params-named p id task q.named
      ∙ ap (answer_jsonrpc p id) (subscribable-refusal task laws)

  rest_alike :
      (r : Request) (task : Text) (o : Option TtlEntry)
      → answer_rest r task (refusal sdk o) ≡ rest_reply sdk r task o
  unfolding answer_rest write_rest_error codes_for
  rest_alike r task none = refl
  rest_alike r task (some e) = elim (Bool-cases (sdk.terminal e.task.status.state)) [
    | inl h ↦ rw h refl
    | inr h ↦ rw h refl
  ]

  rpc_alike :
      (r : Request) (id : Text) (o : Option TtlEntry)
      → answer_jsonrpc r id (refusal sdk o) ≡ rpc_reply sdk r id o
  unfolding answer_jsonrpc write_jsonrpc_error codes_for
  rpc_alike r id none = refl
  rpc_alike r id (some e) = elim (Bool-cases (sdk.terminal e.task.status.state)) [
    | inl h ↦ rw h refl
    | inr h ↦ rw h refl
  ]

  replies_agree :
      (r q : Request) (id task : Text) (o : Option TtlEntry)
      → cause_of (rest_reply sdk r task o) ≡ cause_of (rpc_reply sdk q id o)
  replies_agree r q id task none = refl
  replies_agree r q id task (some e) = elim (Bool-cases (sdk.terminal e.task.status.state)) [
    | inl h ↦ rw h refl
    | inr h ↦ rw h refl
  ]

  -- A subscription to a task, in an accepted version, is answered for the same cause on both
  -- bindings. An unknown task is answered with TaskNotFound: HTTP 404 and NOT_FOUND with the task on
  -- REST, code -32001 with the echoed id on JSON-RPC. A terminal one is answered with
  -- UnsupportedOperation: HTTP 400 and FAILED_PRECONDITION, or code -32004. Any other goes on to the
  -- SDK with its version pinned.
  pub subscribe_bindings :
      (r q : Request) (id task : Text)
      → SdkLaws sdk
      → SubscribesRest g r task
      → SubscribesRpc g q id task
      → (rest sdk g tasks r ≡ rest_reply sdk (pinned g r) task (lookup task tasks))
        × (jsonrpc sdk g tasks q ≡ rpc_reply sdk (pinned g q) id (lookup task tasks))
        × (cause_of (rest sdk g tasks r) ≡ cause_of (jsonrpc sdk g tasks q))
  subscribe_bindings r q id task laws a b =
      let o = lookup task tasks in
      let on_rest = rest-subscribes r task laws a ∙ rest_alike (pinned g r) task o in
      let on_rpc = rpc-subscribes q id task laws b ∙ rpc_alike (pinned g q) id o in
      (
        on_rest,
        on_rpc,
        ap cause_of on_rest
            ∙ replies_agree (pinned g r) (pinned g q) id task o
            ∙ sym (ap cause_of on_rpc),
      )
