-- ===== src/Config/Values.antt =====
-- The JSON values that internal/ideconfig reads and edits: what encoding/json decodes into `any`. A
-- number stands for its float64 bits, and a map is its entries.
use a2abridge.Prelude.{
  if◌then◌else◌, Text, text_eq, text_eq_iff, ℕ, ◌≡◌, refl, Bool, true, false, Option, none, some,
  [], arith,
}

mutual
  pub data Value : Type 0 where
    null : Value
    bool : Bool → Value
    number : ℕ → Value
    string : Text → Value
    array : Items → Value
    object : Fields → Value

  pub data Items : Type 0 where
    nil : Items
    cons : Value → Items → Items

  pub data Fields : Type 0 where
    end : Fields
    field : Text → Value → Fields → Fields

-- v, ok := m[k]
unfoldable pub find_field : Text → Fields → Option Value
find_field k end = none
find_field k (field l v fs) = let rest = find_field k fs in if text_eq l k then some v else rest

-- A missing key is nil.
abbrev pub or_null : Option Value → Value
or_null none = null
or_null (some v) = v

abbrev pub value_at : Text → Fields → Value
value_at k fs = or_null (find_field k fs)

-- m[k] = v
unfoldable pub put : Text → Value → Fields → Fields
put k v end = field k v end
put k v (field l u fs) =
    let rest = put k v fs in if text_eq l k then field l v fs else field l u rest

-- delete(m, k)
unfoldable pub remove : Text → Fields → Fields
remove k end = end
remove k (field l u fs) = let rest = remove k fs in if text_eq l k then rest else field l u rest

-- Whether len(m) is 0.
abbrev pub is_empty : Fields → Bool
is_empty end = true
is_empty (field k v fs) = false

-- v.(map[string]any) where the type fits.
abbrev pub as_object : Value → Option Fields
as_object (object fs) = some fs
as_object _ = none

-- The same with the zero value otherwise: reading a nil map finds nothing.
abbrev pub fields_of : Value → Fields
fields_of (object fs) = fs
fields_of _ = end

-- v.([]any) where the type fits; and its elements, none for a nil slice.
abbrev pub as_array : Value → Option Items
as_array (array xs) = some xs
as_array _ = none

abbrev pub items_of : Value → Items
items_of (array xs) = xs
items_of _ = nil

-- v.(string), the empty text otherwise.
abbrev pub text_of : Value → Text
text_of (string t) = t
text_of _ = []

-- append(xs, v)
unfoldable pub push : Value → Items → Items
push v nil = cons v nil
push v (cons u xs) = cons u (push v xs)

pub find_field-put :
    (k l : Text) (v : Value) (fs : Fields)
    → find_field l (put k v fs) ≡ (if text_eq k l then some v else find_field l fs)
unfolding find_field put
find_field-put k l v end = refl
find_field-put k l v (field j u fs) =
    ground (arith, text_eq_iff k l, text_eq_iff j k, text_eq_iff j l, find_field-put k l v fs)

pub find_field-remove :
    (k l : Text) (fs : Fields)
    → find_field l (remove k fs) ≡ (if text_eq k l then none else find_field l fs)
unfolding find_field remove
find_field-remove k l end = ground arith
find_field-remove k l (field j u fs) =
    ground (arith, text_eq_iff k l, text_eq_iff j k, text_eq_iff j l, find_field-remove k l fs)

pub find_field-end : (k : Text) → find_field k end ≡ none
unfolding find_field
find_field-end k = refl
