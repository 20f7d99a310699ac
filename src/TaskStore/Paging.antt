-- ===== src/TaskStore/Paging.antt =====
-- internal/agent/taskstore.go, List: a client that follows the page tokens sees every task once.
use a2abridge.TaskStore.Order.{
  Descending, DistinctIds, sort_entries-All, sort_entries-Descending, sort_entries-perm,
  after_cursor-split,
}
use a2abridge.TaskStore.Token.{
  CodecLaws, decode-encode_page_token, encode_page_token-ne-nil, page_start-token, split_page,
}
use a2abridge.TaskStore.Indexed.{IsIndexed, entries, entries-DistinctIds, entries-named}
use mathlib.Core.List.{Perm}
use mathlib.Core.Path.{subst}
use a2abridge.Prelude.{
  ltb, ltb→lt, lt→ltb, Bool-cases, length, get_elem?, take, drop, filter, All, take-append-drop,
  length-drop, take_all, drop-All, filter-All, All-get_elem?, Text, codes, ℕ, zero, suc, ◌-◌, ◌≤◌,
  ◌<◌, ◌≡◌, refl, sym, ap, ◌∙◌, ◌≢◌, inl, inr, Bool, Option, none, some, List, [], ◌∷◌, ◌++◌, map,
  append_assoc, arith,
}
use a2abridge.A2a.{Task}
use a2abridge.TaskStore.Data.{TtlEntry, Tasks, ok, err, Sdk, SdkLaws}
use a2abridge.TaskStore.Listing.{
  ListRequest, ListResponse, TokenCodec, encode_page_token, key, after_cursor, matches_list_filter,
  valid_page_size, present, present_all, page_start, next_token, filtered_entries, list_page,
  list_tasks,
}

-- The task as a response to the request shows it.
abbrev pub shown : ListRequest → List TtlEntry → List Task
shown req = map (λ e. present req e.task)

shown-append :
    (req : ListRequest) (a b : List TtlEntry) → shown req (a ++ b) ≡ shown req a ++ shown req b
shown-append req [] b = refl
shown-append req (e ∷ a) b = ap (◌∷◌ (present req e.task)) (shown-append req a b)

present_all-shown :
    (sdk : Sdk) (req : ListRequest) (l : List TtlEntry)
    → SdkLaws sdk
    → present_all sdk req l ≡ ok (shown req l)
unfolding present_all
present_all-shown sdk req [] laws = refl
present_all-shown sdk req (e ∷ l) laws =
    rw (laws.clone-eq e.task, present_all) (rw (present_all-shown sdk req l laws))

-- The page token of a request bears on the start of the page alone.
filtered-token :
    (unspecified token : Text) (req : ListRequest) (s : Tasks)
    → filtered_entries unspecified (record req { page_token = token }) s
      ≡ filtered_entries unspecified req s
unfolding filtered_entries
filtered-token unspecified token req s = refl

shown-token :
    (token : Text) (req : ListRequest) (l : List TtlEntry)
    → shown (record req { page_token = token }) l ≡ shown req l
unfolding present
shown-token token req [] = refl
shown-token token req (e ∷ l) = ap (◌∷◌ (present req e.task)) (shown-token token req l)

split_at :
    {l : List TtlEntry} (done : List TtlEntry) (n : ℕ) (rest : List TtlEntry) (x : TtlEntry)
    → l ≡ done ++ rest
    → rest ≡ take n rest ++ x ∷ drop (suc n) rest
    → l ≡ (done ++ take n rest) ++ x ∷ drop (suc n) rest
split_at done n rest x split parts =
    split ∙ ap (◌++◌ done) parts ∙ sym (append_assoc done (take n rest) (x ∷ drop (suc n) rest))

module _ (sdk : Sdk) (codec : TokenCodec) (unspecified : Text) (req : ListRequest) (s : Tasks) where
  -- A client that asks for one page after another until it gets no token; none if a call fails or
  -- the rounds run out.
  pub walk : ℕ → Text → Option (List Task)
  walk zero token = none
  walk (suc rounds) token =
      elim (list_tasks sdk codec unspecified (record req { page_token = token }) s) [
        | err e ↦ none
        | ok page ↦ elim page.next_page_token [
          | [] ↦ some page.tasks
          | c ∷ t ↦ elim (walk rounds (c ∷ t)) [
            | none ↦ none
            | some rest ↦ some (page.tasks ++ rest)
          ]
        ]
      ]

  abbrev filtered : List TtlEntry
  filtered = filtered_entries unspecified req s

  -- The page that a token asks for.
  abbrev page_of : ℕ → List TtlEntry → ListResponse
  page_of size rest = record {
    tasks = shown req (take size rest);
    total_size = length filtered;
    page_size = length (shown req (take size rest));
    next_page_token = next_token codec size rest;
  }

  list_tasks-page :
      (size : ℕ) (token : Text) (rest : List TtlEntry)
      → SdkLaws sdk
      → valid_page_size req.page_size ≡ ok size
      → page_start codec token filtered ≡ ok rest
      → list_tasks sdk codec unspecified (record req { page_token = token }) s
        ≡ ok (page_of size rest)
  unfolding list_tasks
  list_tasks-page size token rest laws valid start =
      let now = record req { page_token = token } in
      rw (valid, filtered-token unspecified token req s)
        (unfold list_page in
          rw (
            start,
            present_all-shown sdk now (take size rest) laws,
            shown-token token req (take size rest),
          ))

  walk_end :
      (rounds : ℕ) (token : Text) (page : ListResponse)
      → list_tasks sdk codec unspecified (record req { page_token = token }) s ≡ ok page
      → page.next_page_token ≡ []
      → walk (suc rounds) token ≡ some page.tasks
  unfolding walk
  walk_end rounds token page h e = rw (h, walk) (rw (e, walk))

  walk_more :
      (rounds : ℕ) (token next : Text) (page : ListResponse) (rest : List Task)
      → list_tasks sdk codec unspecified (record req { page_token = token }) s ≡ ok page
      → page.next_page_token ≡ next
      → next ≢ []
      → walk rounds next ≡ some rest
      → walk (suc rounds) token ≡ some (page.tasks ++ rest)
  unfolding walk
  walk_more rounds token [] page rest h e n w = absurd (n refl)
  walk_more rounds token (c ∷ t) page rest h e n w = rw (h, walk) (rw (e, walk) (rw (w, walk)))

  next_token-end :
      (size : ℕ) (rest : List TtlEntry) → length rest ≤ size → next_token codec size rest ≡ []
  unfolding next_token
  next_token-end size rest h = ground arith

  next_token-more :
      (n : ℕ) (rest : List TtlEntry) (x : TtlEntry)
      → suc n < length rest
      → get_elem? rest n ≡ some x
      → next_token codec (suc n) rest ≡ encode_page_token codec x.last_updated x.task.id
  unfolding next_token
  next_token-more n rest x h e =
      let p : suc n - 1 ≡ n = omega arith in
      rw (lt→ltb (suc n) (length rest) h, p) (rw (e, next_token))

  -- From any page on, the walk shows what is left of the list.
  walk_from :
      (rounds n : ℕ) (token : Text) (done rest : List TtlEntry)
      → SdkLaws sdk
      → CodecLaws codec
      → valid_page_size req.page_size ≡ ok (suc n)
      → Descending filtered
      → All (λ e. e.task.id ≢ []) rest
      → filtered ≡ done ++ rest
      → page_start codec token filtered ≡ ok rest
      → length rest < rounds
      → walk rounds token ≡ some (shown req rest)
  walk_from zero n token done rest laws codes valid d ids split start h = absurd (omega arith)
  walk_from (suc rounds) n token done rest laws codes valid d ids split start h =
      let page = page_of (suc n) rest in
      let call = list_tasks-page (suc n) token rest laws valid start in
      elim (Bool-cases (ltb (suc n) (length rest))) [
        | inr short ↦
            walk_end rounds token page call (next_token-end (suc n) rest (ground arith))
            ∙ ap (λ l. some (shown req l)) (take_all (suc n) rest (ground arith))
        | inl more ↦
            let long = ltb→lt (suc n) (length rest) more in
            let (x, at, parts) = split_page n rest (omega arith) in
            let next = encode_page_token codec x.last_updated x.task.id in
            let later = drop (suc n) rest in
            let whole = split_at done n rest x split parts in
            walk_more rounds token next page (shown req later) call
              (next_token-more n rest x long at)
              (encode_page_token-ne-nil codec x.last_updated x.task.id codes)
              (walk_from rounds n next (done ++ take (suc n) rest) later laws codes valid d
                (drop-All (λ e. e.task.id ≢ []) (suc n) rest ids)
                (split
                  ∙ ap (◌++◌ done) (sym (take-append-drop (suc n) rest))
                  ∙ sym (append_assoc done (take (suc n) rest) later))
                (page_start-token codec next (key x) filtered
                    (encode_page_token-ne-nil codec x.last_updated x.task.id codes)
                    (decode-encode_page_token codec x.last_updated x.task.id codes
                      (All-get_elem? (λ e. e.task.id ≢ []) n rest ids at))
                  ∙ ap (λ l. ok l)
                      (ap (after_cursor (key x)) whole
                        ∙ after_cursor-split (done ++ take n rest) x later
                            (subst Descending whole d)))
                (omega (arith, length-drop (suc n) rest)))
            ∙ ap (λ l. some l)
                (sym (shown-append req (take (suc n) rest) later)
                  ∙ ap (shown req) (take-append-drop (suc n) rest))
      ]

filter-DistinctIds :
    (p : TtlEntry → Bool) (l : List TtlEntry) → DistinctIds l → DistinctIds (filter p l)
filter-DistinctIds p [] d = tt
filter-DistinctIds p (e ∷ l) d = elim (Bool-cases (p e)) [
  | inl q ↦ rw q (filter-All (λ x. x.task.id ≢ e.task.id) p l d.0, filter-DistinctIds p l d.1)
  | inr q ↦ rw q (filter-DistinctIds p l d.1)
]

-- A client that follows the page tokens gets every matching task exactly once: from any indexed
-- store, with a valid page size and any filter, the walk from the empty token ends within one
-- round more than there are matching tasks, no call fails, and the pages together are the
-- matching tasks (a permutation of those in the map), newest first, as the request shows them.
pub walk_complete :
    (sdk : Sdk) (codec : TokenCodec) (unspecified : Text) (req : ListRequest) (s : Tasks)
    (n rounds : ℕ)
    → SdkLaws sdk
    → CodecLaws codec
    → IsIndexed s
    → valid_page_size req.page_size ≡ ok (suc n)
    → length (filtered_entries unspecified req s) < rounds
    → (l : List TtlEntry) × (walk sdk codec unspecified req s rounds [] ≡ some (shown req l))
      × Descending l
      × Perm l (filter (matches_list_filter unspecified req) (map (λ kv. kv.1) s))
walk_complete sdk codec unspecified req s n rounds laws codes i valid enough = (
  filtered_entries unspecified req s,
  walk_from sdk codec unspecified req s rounds n [] [] (filtered_entries unspecified req s) laws
      codes valid descending named refl first enough,
  descending,
  unfold filtered_entries in sort_entries-perm matching,
)
  where
    matching : List TtlEntry
    matching = filter (matches_list_filter unspecified req) (entries s)

    descending : Descending (filtered_entries unspecified req s)
    descending =
        unfold filtered_entries in
        sort_entries-Descending matching (
          filter-DistinctIds (matches_list_filter unspecified req) (entries s)
            (entries-DistinctIds s i.unique i.under_id))

    named : All (λ e. e.task.id ≢ []) (filtered_entries unspecified req s)
    named =
        unfold filtered_entries in
        sort_entries-All (λ e. e.task.id ≢ []) matching
          (filter-All (λ e. e.task.id ≢ []) (matches_list_filter unspecified req) (entries s)
            (entries-named s i.under_id i.named))

    first :
        page_start codec [] (filtered_entries unspecified req s)
        ≡ ok (filtered_entries unspecified req s)
    first = unfold page_start in refl
