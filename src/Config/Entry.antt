-- ===== src/Config/Entry.antt =====
-- internal/ideconfig: the entry of the MCP server in a JSON configuration (setMCPServerEntry,
-- ensureNestedMap and equalJSON of jsonmerge.go, mcpEntryJSON of claude.go). json.Marshal is a
-- parameter.
use a2abridge.Prelude.{
  if◌then◌else◌, Text, codes, text_eq, Bool, true, false, Option, some, List, [], ◌∷◌,
}
use a2abridge.Config.Values.{
  Value, string, array, object, nil, cons, Fields, end, field, value_at, put, is_empty, fields_of,
}

-- `Spec`; the map of the environment by its entries.
pub record Spec : Type 0 where
  pub key : Text
  pub binary_path : Text
  pub env : List (Text × Text)
  pub hook_command : Text

abbrev pub env_object : List (Text × Text) → Fields
env_object [] = end
env_object ((k, v) ∷ l) = field k (string v) (env_object l)

-- `mcpEntryJSON`
unfoldable pub mcp_entry_json : Spec → Fields
unfolding put
mcp_entry_json spec =
    let env = env_object spec.env in
    let entry =
      field (codes "command") (string spec.binary_path)
        (field (codes "args") (array (cons (string (codes "bridge")) nil)) end) in
    if is_empty env then entry else put (codes "env") (object env) entry

-- `ensureNestedMap` at one key: the nested map, which is at its key afterwards.
abbrev pub nested_map : Text → Fields → Fields
nested_map k root = fields_of (value_at k root)

-- Whether two encodings are there and equal.
abbrev pub equal_encodings : Option Text → Option Text → Bool
equal_encodings (some a) (some b) = text_eq a b
equal_encodings _ _ = false

module _ (marshal : Value → Option Text) where
  -- `equalJSON`
  unfoldable pub equal_json : Value → Value → Bool
  equal_json a b = equal_encodings (marshal a) (marshal b)

  -- `setMCPServerEntry`, with the changed root.
  unfoldable pub set_mcp_server_entry : Spec → Fields → Fields × Bool
  unfolding equal_json mcp_entry_json
  set_mcp_server_entry spec root =
      let servers = nested_map (codes "mcpServers") root in
      let desired = object (mcp_entry_json spec) in
      if equal_json (value_at spec.key servers) desired
      then (put (codes "mcpServers") (object servers) root, false)
      else (put (codes "mcpServers") (object (put spec.key desired servers)) root, true)
