-- ===== src/TaskStore/Token.antt =====
-- internal/agent/taskstore.go, encodePageToken and decodePageToken: the round trip of a cursor.
use a2abridge.Prelude.{
  ◌==◌, length, get_elem?, take, drop, any, Text, ℕ, zero, suc, ◌<◌, ◌≡◌, refl, ap, ◌∙◌, ◌≢◌, false,
  some, List, [], ◌∷◌, ◌++◌, arith,
}
use a2abridge.TaskStore.Data.{TtlEntry, ok}
use a2abridge.TaskStore.Listing.{
  TokenCodec, separator, cut, encode_page_token, decode_cut, decode_page_token, Key, after_cursor,
  page_start,
}

-- What the standard library documents of the codec.
pub record CodecLaws (codec : TokenCodec) : Type 0 where
  pub decode-encode : (b : Text) → codec.decode64 (codec.encode64 b) ≡ some b
  pub encode-ne-nil : (c : ℕ) (b : Text) → codec.encode64 (c ∷ b) ≢ []
  pub parse-format : (t : ℕ) → codec.parse_nano (codec.format_nano t) ≡ some t
  pub no_separator : (t : ℕ) → any (λ c. c == separator) (codec.format_nano t) ≡ false

cut-append :
    (a b : Text) → any (λ c. c == separator) a ≡ false → cut (a ++ separator ∷ b) ≡ some (a, b)
unfolding cut
cut-append [] b h = refl
cut-append (c ∷ a) b h = ground (arith, cut-append a b)

module _ (codec : TokenCodec) where
  decode-raw :
      (token raw : Text)
      → codec.decode64 token ≡ some raw
      → decode_page_token codec token ≡ decode_cut codec (cut raw)
  unfolding decode_page_token
  decode-raw token raw h = rw (h, decode_page_token)

  decode_cut-parsed :
      (ts : Text) (t c : ℕ) (id : Text)
      → codec.parse_nano ts ≡ some t
      → decode_cut codec (some (ts, c ∷ id)) ≡ ok (t, c ∷ id)
  unfolding decode_cut
  decode_cut-parsed ts t c id h = rw (h, decode_cut)

  -- A page token decodes to the key that it was made of.
  pub decode-encode_page_token :
      (t : ℕ) (id : Text)
      → CodecLaws codec
      → id ≢ []
      → decode_page_token codec (encode_page_token codec t id) ≡ ok (t, id)
  decode-encode_page_token t [] laws n = absurd (n refl)
  decode-encode_page_token t (c ∷ id) laws n =
      let ts = codec.format_nano t in
      let raw = ts ++ separator ∷ c ∷ id in
      decode-raw (encode_page_token codec t (c ∷ id)) raw
        (unfold encode_page_token in laws.decode-encode raw)
      ∙ ap (decode_cut codec) (cut-append ts (c ∷ id) (laws.no_separator t))
      ∙ decode_cut-parsed ts t c id (laws.parse-format t)

  pub encode_page_token-ne-nil :
      (t : ℕ) (id : Text) → CodecLaws codec → encode_page_token codec t id ≢ []
  unfolding encode_page_token
  encode_page_token-ne-nil t id laws = go (codec.format_nano t)
    where
      go : (ts : Text) → codec.encode64 (ts ++ separator ∷ id) ≢ []
      go [] = laws.encode-ne-nil separator id
      go (c ∷ ts) = laws.encode-ne-nil c (ts ++ separator ∷ id)

  pub page_start-token :
      (token : Text) (c : Key) (l : List TtlEntry)
      → token ≢ []
      → decode_page_token codec token ≡ ok c
      → page_start codec token l ≡ ok (after_cursor c l)
  unfolding page_start
  page_start-token [] c l n h = absurd (n refl)
  page_start-token (d ∷ token) c l n h = rw (h, page_start)

-- Where a list is longer than a page, the page's last entry and what follows it.
pub split_page :
    (n : ℕ) (l : List TtlEntry)
    → n < length l
    → (x : TtlEntry) × (get_elem? l n ≡ some x) × (l ≡ take n l ++ x ∷ drop (suc n) l)
split_page n [] h = absurd (omega arith)
split_page zero (x ∷ l) h = (x, refl, refl)
split_page (suc n) (y ∷ l) h = let (x, e, s) = split_page n l (omega arith) in (x, e, ap (◌∷◌ y) s)
