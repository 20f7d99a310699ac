-- ===== src/Store/ReplyText.antt =====
-- internal/agent/store.go: extractReplyText, messageText and trimTo against what they promise.
use a2abridge.Prelude.{
  leb, ltb, Bool-cases, ◌==◌, if◌then◌else◌, length, take, filter, any, All, length-append,
  length-take, length-map, any-append, any-take, Text, codes, text_eq, text_eq_iff, ℕ, ◌+◌, ◌≤◌,
  ◌<◌, ◌≡◌, refl, sym, ap, ◌∙◌, ◌≢◌, ◌⊎◌, inl, inr, false, not, Option, none, some, List, [], ◌∷◌,
  ◌++◌, map, append_assoc, arith,
}
use a2abridge.A2a.{Part, Artifact, Message, Task}
use a2abridge.Store.Outgoing.{
  part_text, newline, join_parts, message_text, join_artifacts, first_text, extract_reply_text,
  flatten_newlines, trim_to,
}

-- The texts of the parts that have one.
abbrev pub texts : List Part → List Text
texts pts = filter (λ t. not (text_eq t [])) (map part_text pts)

-- strings.Join(l, "\n")
pub join_lines : List Text → Text
join_lines [] = []
join_lines (t ∷ []) = t
join_lines (t ∷ u ∷ l) = t ++ newline ∷ join_lines (u ∷ l)

abbrev pub artifact_parts : List Artifact → List Part
artifact_parts [] = []
artifact_parts (none ∷ l) = artifact_parts l
artifact_parts (some parts ∷ l) = parts ++ artifact_parts l

-- The joined text continues what the builder holds.
abbrev continue : Text → Text → Text
continue [] r = r
continue (c ∷ b) [] = c ∷ b
continue (c ∷ b) (d ∷ r) = c ∷ b ++ newline ∷ d ∷ r

continue_assoc :
    (c : ℕ) (b : Text) (d : ℕ) (t j : Text)
    → continue (c ∷ b ++ newline ∷ d ∷ t) j ≡ continue (c ∷ b) (continue (d ∷ t) j)
continue_assoc c b d t [] = refl
continue_assoc c b d t (e ∷ r) = append_assoc (c ∷ b) (newline ∷ d ∷ t) (newline ∷ e ∷ r)

join_lines-cons :
    (d : ℕ) (t : Text) (l : List Text)
    → All (λ u. u ≢ []) l
    → join_lines ((d ∷ t) ∷ l) ≡ continue (d ∷ t) (join_lines l)
unfolding join_lines
join_lines-cons d t [] h = refl
join_lines-cons d t ([] ∷ l) h = absurd (h.0 refl)
join_lines-cons d t ((u ∷ us) ∷ []) h = refl
join_lines-cons d t ((u ∷ us) ∷ v ∷ l) h = refl

texts-ne-nil : (pts : List Part) → All (λ u. u ≢ []) (texts pts)
texts-ne-nil [] = tt
texts-ne-nil (pt ∷ pts) = ground (arith, text_eq_iff (part_text pt) [], texts-ne-nil pts)

join_parts-lines :
    (b : Text) (pts : List Part) → join_parts b pts ≡ continue b (join_lines (texts pts))
unfolding join_parts text_eq
join_parts-lines [] [] = unfold join_lines in refl
join_parts-lines (c ∷ b) [] = unfold join_lines in refl
join_parts-lines b (none ∷ pts) = join_parts-lines b pts
join_parts-lines b (some [] ∷ pts) = join_parts-lines b pts
join_parts-lines [] (some (d ∷ t) ∷ pts) =
    join_parts-lines (d ∷ t) pts ∙ sym (join_lines-cons d t (texts pts) (texts-ne-nil pts))
join_parts-lines (c ∷ b) (some (d ∷ t) ∷ pts) =
    ap (λ x. join_parts x pts) (builder c b d t)
    ∙ join_parts-lines (c ∷ b ++ newline ∷ d ∷ t) pts
    ∙ continue_assoc c b d t (join_lines (texts pts))
    ∙ ap (continue (c ∷ b)) (sym (join_lines-cons d t (texts pts) (texts-ne-nil pts)))
  where
    builder :
        (c : ℕ) (b : Text) (d : ℕ) (t : Text)
        → (if ltb 0 (length (c ∷ b)) then c ∷ b ++ newline ∷ d ∷ t else c ∷ b ++ d ∷ t)
          ≡ c ∷ b ++ newline ∷ d ∷ t
    builder c b d t = ground arith

-- `messageText` joins the texts of the parts that have one with newlines, in order.
pub message_text-lines : (m : Message) → message_text m ≡ join_lines (texts m.parts)
unfolding message_text
message_text-lines m = join_parts-lines [] m.parts

texts-append : (a b : List Part) → texts (a ++ b) ≡ texts a ++ texts b
texts-append [] b = refl
texts-append (pt ∷ a) b = ground (arith, texts-append a b)

join_parts-append :
    (b : Text) (l m : List Part) → join_parts b (l ++ m) ≡ join_parts (join_parts b l) m
unfolding join_parts
join_parts-append b [] m = refl
join_parts-append b (none ∷ l) m = join_parts-append b l m
join_parts-append b (some [] ∷ l) m = join_parts-append b l m
join_parts-append b (some (c ∷ t) ∷ l) m =
    join_parts-append (if ltb 0 (length b) then b ++ newline ∷ c ∷ t else b ++ c ∷ t) l m

join_artifacts-parts :
    (b : Text) (l : List Artifact) → join_artifacts b l ≡ join_parts b (artifact_parts l)
unfolding join_artifacts
join_artifacts-parts b [] = unfold join_parts in refl
join_artifacts-parts b (none ∷ l) = join_artifacts-parts b l
join_artifacts-parts b (some parts ∷ l) =
    join_artifacts-parts (join_parts b parts) l ∙ sym (join_parts-append b parts (artifact_parts l))

abbrev pub head_or : Text → List Text → Text
head_or d [] = d
head_or d (t ∷ l) = t

first_text-head : (pts : List Part) → first_text pts ≡ head_or [] (texts pts)
unfolding first_text text_eq
first_text-head [] = refl
first_text-head (none ∷ pts) = first_text-head pts
first_text-head (some [] ∷ pts) = first_text-head pts
first_text-head (some (c ∷ t) ∷ pts) = refl

abbrev pub status_parts : Option Message → List Part
status_parts none = []
status_parts (some m) = m.parts

-- The lines of the artifacts, or, where there are none, another text.
abbrev pub lines_or : Text → List Text → Text
lines_or d [] = d
lines_or d (t ∷ l) = join_lines (t ∷ l)

extract-cases :
    (t : Task) (l : List Text)
    → All (λ u. u ≢ []) l
    → join_artifacts [] t.artifacts ≡ join_lines l
    → extract_reply_text t ≡ lines_or (head_or [] (texts (status_parts t.status.message))) l
unfolding extract_reply_text join_lines
extract-cases t [] h e = rw (e, extract_reply_text) (from_status t.status.message)
  where
    from_status :
        (m : Option Message)
        → (elim m as (λ x. Text) [ none ↦ [] | some m ↦ first_text m.parts ])
          ≡ head_or [] (texts (status_parts m))
    from_status none = refl
    from_status (some m) = first_text-head m.parts
extract-cases t ([] ∷ l) h e = absurd (h.0 refl)
extract-cases t ((c ∷ u) ∷ []) h e = rw (e, extract_reply_text)
extract-cases t ((c ∷ u) ∷ v ∷ l) h e = rw (e, extract_reply_text)

-- `extractReplyText` returns the texts of all artifact parts that have one, in order, joined with
-- newlines; where no artifact part has a text, the first text of the status message's parts; and
-- the empty text where that has none either.
pub extract_reply_text_lem :
    (t : Task)
    → extract_reply_text t
      ≡ lines_or
          (head_or [] (texts (status_parts t.status.message)))
          (texts (artifact_parts t.artifacts))
extract_reply_text_lem t =
    let parts = artifact_parts t.artifacts in
    extract-cases t (texts parts) (texts-ne-nil parts)
      (join_artifacts-parts [] t.artifacts ∙ join_parts-lines [] parts)

flatten_newlines-any : (s : Text) → any (λ c. c == newline) (flatten_newlines s) ≡ false
flatten_newlines-any [] = refl
flatten_newlines-any (c ∷ s) = ground (arith, flatten_newlines-any s)

-- A text and the same in one line: a space stands for each newline, and all else is kept.
abbrev pub InOneLine : Text → Text → Type 0
InOneLine [] [] = Unit
InOneLine (c ∷ s) (d ∷ t) =
    (((c ≡ newline) × (d ≡ b' ')) ⊎ ((c ≢ newline) × (d ≡ c))) × InOneLine s t
InOneLine _ _ = ⊥

flatten_newlines-InOneLine : (s : Text) → InOneLine s (flatten_newlines s)
flatten_newlines-InOneLine [] = tt
flatten_newlines-InOneLine (c ∷ s) = (
  elim (Bool-cases (c == newline)) [
    | inl e ↦ inl (ground (arith, e), rw e refl)
    | inr e ↦ inr (ground (arith, e), rw e refl)
  ],
  flatten_newlines-InOneLine s,
)

-- A trimmed text has at most `n` runes before its three dots, and no newline. Where the text has at
-- most `n` runes, it is the text in one line: newlines are spaces, and every other rune is kept. A
-- longer text is cut: the first `n` runes, in one line, and three dots.
pub trim_to_bounds :
    (s : Text) (n : ℕ)
    → (length (trim_to s n) ≤ n + 3)
      × (any (λ c. c == newline) (trim_to s n) ≡ false)
      × (((length s ≤ n) × InOneLine s (trim_to s n))
          ⊎ ((n < length s)
              × ((t : Text) × (InOneLine s t × (trim_to s n ≡ take n t ++ codes "...")))))
unfolding trim_to
trim_to_bounds s n =
    let r = flatten_newlines s in
    let dots = codes "..." in
    let no_newline = flatten_newlines-any s in
    let width = length-map (λ c. if c == newline then 32 else c) s in
    (
      ground (arith, width, length-append (take n r) dots, length-take n r),
      ground (
        arith,
        no_newline,
        any-append (λ c. c == newline) (take n r) dots,
        any-take n (λ c. c == newline) r,
      ),
      elim (Bool-cases (leb (length r) n)) [
        | inl e ↦ inl (ground (arith, width, e), rw e (flatten_newlines-InOneLine s))
        | inr e ↦ inr (ground (arith, width, e), (r, (flatten_newlines-InOneLine s, rw e refl)))
      ],
    )
