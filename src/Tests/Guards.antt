-- ===== src/Tests/Guards.antt =====
-- The theorems on internal/agent/guard.go on concrete requests.
use a2abridge.Prelude.{Text, codes, text_eq, lookup, ◌≡◌, refl, ◌↔◌, true, none, some, [], ◌∷◌}
use a2abridge.Strings.{is_space, trim_left, trim_right, trim_space, split, contains_rune}
use a2abridge.Numbers.{digits_value, magnitude, atoi, digits_of, itoa}
use a2abridge.TaskStore.Data.{TtlEntry, Tasks}
use a2abridge.Guard.Version.{
  version_number, major_minor_of, major_minor, Carrier, requested, version_ok,
  check_protocol_version, pin_protocol_version,
}
use a2abridge.Guard.Defs.{
  bytes, Request, RpcEnvelope, rest_tasks_prefix, subscribe_action_suffix, subscribe_task_id,
  is_rpc_id, Guard, envelope_id, pinned, rest, jsonrpc,
}
use a2abridge.Guard.Subscribe.{IsTaskId, subscribe_path, subscribe_task_id_lem}
use a2abridge.Guard.Pinning.{IsVersion, IsPinned, pin_protocol_version_lem}
use a2abridge.Guard.Gate.{
  rest_reply, rpc_reply, cause_of, SubscribesRest, SubscribesRpc, subscribe_bindings,
}
use a2abridge.Tests.Instances.{completed, example_sdk, example_sdk_laws}

abbrev served : Text
served = codes "1.0"

abbrev carrier : Carrier
carrier = record { header = codes " 1.0.3"; param = some (codes "0.3") }

served-IsVersion : IsVersion served
unfolding major_minor version_number major_minor_of split atoi magnitude digits_value itoa digits_of
    trim_space trim_left trim_right is_space
served-IsVersion = record { number = refl; trimmed = refl; sent = λ e. cc }

carrier_accepted : check_protocol_version served carrier ≡ true
unfolding check_protocol_version requested version_ok text_eq major_minor version_number
    major_minor_of split atoi magnitude digits_value itoa digits_of trim_space trim_left trim_right
    is_space
carrier_accepted = refl

pin_protocol_version_lem_example :
    let p = pin_protocol_version served carrier in
    IsPinned served p × (requested p ≡ served) × (check_protocol_version served p ≡ true)
pin_protocol_version_lem_example =
    pin_protocol_version_lem served carrier served-IsVersion carrier_accepted

subscribe_task_id_lem_example :
    (subscribe_task_id (codes "/tasks/t1:subscribe") ≡ some (codes "t1"))
    ↔ (IsTaskId (codes "t1") × (codes "/tasks/t1:subscribe" ≡ subscribe_path (codes "t1")))
subscribe_task_id_lem_example = subscribe_task_id_lem (codes "/tasks/t1:subscribe") (codes "t1")

abbrev envelope : RpcEnvelope
envelope = record {
  jsonrpc = codes "2.0";
  id = codes "7";
  method = codes "SubscribeToTask";
  params = codes "t1";
}

abbrev guard : Guard
guard = record {
  served = served;
  streaming = true;
  decode_envelope = λ b. some envelope;
  decode_params = λ b. some b;
}

abbrev finished : TtlEntry
finished = record {
  task = record {
    id = codes "t1";
    context_id = [];
    status = record { state = completed; message = none; timestamp = none };
    artifacts = [];
    history = [];
  };
  version = 1;
  last_updated = 0;
}

abbrev tasks : Tasks
tasks = (codes "t1", finished) ∷ []

abbrev rest_request : Request
rest_request = record {
  verb = codes "GET";
  path = codes "/tasks/t1:subscribe";
  carrier = carrier;
  body = bytes [];
}

abbrev rpc_request : Request
rpc_request = record {
  verb = codes "POST";
  path = codes "/";
  carrier = carrier;
  body = bytes (codes "...");
}

rest_request-SubscribesRest : SubscribesRest guard rest_request (codes "t1")
unfolding text_eq contains_rune rest_tasks_prefix subscribe_action_suffix
rest_request-SubscribesRest = record {
  read = refl;
  version = carrier_accepted;
  streams = refl;
  verb = refl;
  named = ((λ e. cc), refl);
  at_path = refl;
}

rpc_request-SubscribesRpc : SubscribesRpc guard rpc_request (codes "7") (codes "t1")
unfolding text_eq envelope_id is_rpc_id trim_space trim_left trim_right is_space
rpc_request-SubscribesRpc = record {
  content = codes "...";
  envelope = envelope;
  read = refl;
  version = carrier_accepted;
  streams = refl;
  decoded = refl;
  understood = refl;
  method = refl;
  names = refl;
  named = λ e. cc;
}

subscribe_bindings_example :
    (rest example_sdk guard tasks rest_request
      ≡ rest_reply example_sdk (pinned guard rest_request) (codes "t1") (lookup (codes "t1") tasks))
    × (jsonrpc example_sdk guard tasks rpc_request
        ≡ rpc_reply example_sdk (pinned guard rpc_request) (codes "7") (lookup (codes "t1") tasks))
    × (cause_of (rest example_sdk guard tasks rest_request)
        ≡ cause_of (jsonrpc example_sdk guard tasks rpc_request))
subscribe_bindings_example =
    subscribe_bindings example_sdk guard tasks rest_request rpc_request (codes "7") (codes "t1")
      example_sdk_laws rest_request-SubscribesRest rpc_request-SubscribesRpc
