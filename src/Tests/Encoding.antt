-- ===== src/Tests/Encoding.antt =====
-- A codec of the JSON values of internal/ideconfig for the tests: each value by its kind and what is
-- in it, with the lengths of texts, so that different values have different encodings.
use a2abridge.Prelude.{
  length, Text, text_eq_iff, ◌≡◌, refl, ap, ◌∙◌, true, false, Option, some, [], ◌∷◌, ◌++◌, arith,
}
use a2abridge.Config.Values.{
  Value, null, bool, number, string, array, object, Items, nil, cons, Fields, end, field, value_at,
  fields_of, items_of, text_of,
}
use a2abridge.Config.Entry.{nested_map, equal_json}
use a2abridge.Config.Settled.{texts_of, ReadsAlike}

unfoldable mutual
  pub encode : Value → Text → Text
  encode null r = 0 ∷ r
  encode (bool true) r = 1 ∷ r
  encode (bool false) r = 2 ∷ r
  encode (number n) r = 3 ∷ n ∷ r
  encode (string t) r = 4 ∷ length t ∷ (t ++ r)
  encode (array xs) r = 5 ∷ encode_items xs r
  encode (object fs) r = 6 ∷ encode_fields fs r

  pub encode_items : Items → Text → Text
  encode_items nil r = 0 ∷ r
  encode_items (cons v xs) r = 1 ∷ encode v (encode_items xs r)

  pub encode_fields : Fields → Text → Text
  encode_fields end r = 0 ∷ r
  encode_fields (field k v fs) r = 1 ∷ length k ∷ (k ++ encode v (encode_fields fs r))

abbrev pub marshal : Value → Option Text
marshal v = some (encode v [])

same_text : (s t r q : Text) → length s ≡ length t → s ++ r ≡ t ++ q → (s ≡ t) × (r ≡ q)
same_text [] [] r q e h = (refl, h)
same_text [] (c ∷ t) r q e h = absurd (grind arith)
same_text (c ∷ s) [] r q e h = absurd (grind arith)
same_text (c ∷ s) (d ∷ t) r q e h =
    let (same, rest) = same_text s t r q (grind arith) (grind arith) in (grind arith, rest)

mutual
  unfolding encode encode_items encode_fields

  same_value : (u v : Value) (r q : Text) → encode u r ≡ encode v q → (u ≡ v) × (r ≡ q)
  same_value null null r q e = (refl, grind arith)
  same_value null (bool true) r q e = absurd (grind arith)
  same_value null (bool false) r q e = absurd (grind arith)
  same_value null (number n) r q e = absurd (grind arith)
  same_value null (string t) r q e = absurd (grind arith)
  same_value null (array ys) r q e = absurd (grind arith)
  same_value null (object gs) r q e = absurd (grind arith)
  same_value (bool true) null r q e = absurd (grind arith)
  same_value (bool true) (bool true) r q e = (refl, grind arith)
  same_value (bool true) (bool false) r q e = absurd (grind arith)
  same_value (bool true) (number n) r q e = absurd (grind arith)
  same_value (bool true) (string t) r q e = absurd (grind arith)
  same_value (bool true) (array ys) r q e = absurd (grind arith)
  same_value (bool true) (object gs) r q e = absurd (grind arith)
  same_value (bool false) null r q e = absurd (grind arith)
  same_value (bool false) (bool true) r q e = absurd (grind arith)
  same_value (bool false) (bool false) r q e = (refl, grind arith)
  same_value (bool false) (number n) r q e = absurd (grind arith)
  same_value (bool false) (string t) r q e = absurd (grind arith)
  same_value (bool false) (array ys) r q e = absurd (grind arith)
  same_value (bool false) (object gs) r q e = absurd (grind arith)
  same_value (number m) null r q e = absurd (grind arith)
  same_value (number m) (bool true) r q e = absurd (grind arith)
  same_value (number m) (bool false) r q e = absurd (grind arith)
  same_value (number m) (number n) r q e = (grind arith, grind arith)
  same_value (number m) (string t) r q e = absurd (grind arith)
  same_value (number m) (array ys) r q e = absurd (grind arith)
  same_value (number m) (object gs) r q e = absurd (grind arith)
  same_value (string s) null r q e = absurd (grind arith)
  same_value (string s) (bool true) r q e = absurd (grind arith)
  same_value (string s) (bool false) r q e = absurd (grind arith)
  same_value (string s) (number n) r q e = absurd (grind arith)
  same_value (string s) (string t) r q e =
      let (same, rest) = same_text s t r q (grind arith) (grind arith) in (ap string same, rest)
  same_value (string s) (array ys) r q e = absurd (grind arith)
  same_value (string s) (object gs) r q e = absurd (grind arith)
  same_value (array xs) null r q e = absurd (grind arith)
  same_value (array xs) (bool true) r q e = absurd (grind arith)
  same_value (array xs) (bool false) r q e = absurd (grind arith)
  same_value (array xs) (number n) r q e = absurd (grind arith)
  same_value (array xs) (string t) r q e = absurd (grind arith)
  same_value (array xs) (array ys) r q e =
      let (same, rest) = same_items xs ys r q (grind arith) in (ap array same, rest)
  same_value (array xs) (object gs) r q e = absurd (grind arith)
  same_value (object fs) null r q e = absurd (grind arith)
  same_value (object fs) (bool true) r q e = absurd (grind arith)
  same_value (object fs) (bool false) r q e = absurd (grind arith)
  same_value (object fs) (number n) r q e = absurd (grind arith)
  same_value (object fs) (string t) r q e = absurd (grind arith)
  same_value (object fs) (array ys) r q e = absurd (grind arith)
  same_value (object fs) (object gs) r q e =
      let (same, rest) = same_fields fs gs r q (grind arith) in (ap object same, rest)

  same_items :
      (xs ys : Items) (r q : Text) → encode_items xs r ≡ encode_items ys q → (xs ≡ ys) × (r ≡ q)
  same_items nil nil r q e = (refl, grind arith)
  same_items nil (cons v ys) r q e = absurd (grind arith)
  same_items (cons u xs) nil r q e = absurd (grind arith)
  same_items (cons u xs) (cons v ys) r q e =
      let (head, tail) = same_value u v (encode_items xs r) (encode_items ys q) (grind arith) in
      let (same, rest) = same_items xs ys r q tail in
      (ap (λ w. cons w xs) head ∙ ap (cons v) same, rest)

  same_fields :
      (fs gs : Fields) (r q : Text) → encode_fields fs r ≡ encode_fields gs q → (fs ≡ gs) × (r ≡ q)
  same_fields end end r q e = (refl, grind arith)
  same_fields end (field l v gs) r q e = absurd (grind arith)
  same_fields (field k u fs) end r q e = absurd (grind arith)
  same_fields (field k u fs) (field l v gs) r q e =
      let (key, behind) =
        same_text k l (encode u (encode_fields fs r)) (encode v (encode_fields gs q)) (grind arith)
          (grind arith) in
      let (head, tail) = same_value u v (encode_fields fs r) (encode_fields gs q) behind in
      let (same, rest) = same_fields fs gs r q tail in
      (ap (λ n. field n u fs) key ∙ ap (λ w. field l w fs) head ∙ ap (field l v) same, rest)

pub marshal-ReadsAlike : ReadsAlike marshal
unfolding equal_json
marshal-ReadsAlike u v i j e =
    let same = (same_value u v [] [] ((text_eq_iff (encode u []) (encode v [])).0 e)).0 in
    (
      ap (λ w. text_of (value_at j (fields_of w))) same,
      ap (λ w. texts_of (items_of (value_at j (fields_of w)))) same,
      ap (λ w. text_of (value_at i (nested_map j (fields_of w)))) same,
    )
