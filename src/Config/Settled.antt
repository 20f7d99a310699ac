-- ===== src/Config/Settled.antt =====
-- internal/ideconfig/jsonmerge.go, setMCPServerEntry: what an install makes of a configuration.
use a2abridge.Prelude.{if◌then◌else◌, Text, codes, text_eq, ◌≡◌, true, Option, List, [], ◌∷◌}
use a2abridge.Config.Values.{
  Value, object, Items, nil, cons, Fields, value_at, fields_of, items_of, text_of,
}
use a2abridge.Config.Entry.{Spec, mcp_entry_json, nested_map, equal_json}

-- The texts of an array, an empty one for each element that is no text.
abbrev pub texts_of : Items → List Text
texts_of nil = []
texts_of (cons v xs) = text_of v ∷ texts_of xs

-- Two values in which a key has the same text, the same texts in an array, and the same text at a key
-- of an object.
abbrev pub SameAt : Text → Text → Value → Value → Type 0
SameAt i j u v =
    (text_of (value_at j (fields_of u)) ≡ text_of (value_at j (fields_of v)))
    × (texts_of (items_of (value_at j (fields_of u)))
        ≡ texts_of (items_of (value_at j (fields_of v))))
    × (text_of (value_at i (nested_map j (fields_of u)))
        ≡ text_of (value_at i (nested_map j (fields_of v))))

-- What encoding/json documents: two values with the same encoding decode alike.
abbrev pub ReadsAlike : (Value → Option Text) → Type 0
ReadsAlike marshal = (u v : Value) (i j : Text) → equal_json marshal u v ≡ true → SameAt i j u v

-- A variable of an environment, the empty text where it is not set.
abbrev pub env_text : Text → List (Text × Text) → Text
env_text i [] = []
env_text i ((k, v) ∷ l) = if text_eq k i then v else env_text i l

-- An entry that starts our server: our binary with the argument "bridge", in the environment.
pub record StartsOurs (spec : Spec) (entry : Fields) (i : Text) : Type 0 where
  pub command : text_of (value_at (codes "command") entry) ≡ spec.binary_path
  pub args : texts_of (items_of (value_at (codes "args") entry)) ≡ codes "bridge" ∷ []
  pub env : text_of (value_at i (nested_map (codes "env") entry)) ≡ env_text i spec.env

module _ (marshal : Value → Option Text) (spec : Spec) where
  abbrev desired : Value
  desired = object (mcp_entry_json spec)
