-- ===== src/Config/Registered.antt =====
-- internal/ideconfig/claude.go and remove.go: which commands are registered as hooks, after ours was
-- added and after it was taken out.
use a2abridge.Config.Entry.{nested_map}
use a2abridge.Prelude.{
  Bool-cases, Text, codes, text_eq, text_eq_iff, text_eq_refl, ◌≡◌, refl, sym, ap, ◌∙◌, inl, inr,
  Bool, true, false, not, ◌&&◌, ◌||◌, [], arith,
}
use a2abridge.Config.Values.{
  Value, null, bool, number, string, array, object, Items, nil, cons, Fields, find_field, value_at,
  put, as_object, fields_of, items_of, push, find_field-put,
}
use a2abridge.Config.Hooks.{
  is_command, has_command, hooks_of, is_registered, matchers_of, missing_in, needs_hook_update,
  our_entry, our_matcher, add_to_entry, merge_matchers, merge_user_prompt_submit_hook,
}

-- Whether a command is registered in a configuration.
unfoldable pub runs_hook : Text → Fields → Bool
unfolding is_registered find_field
runs_hook c root = is_registered c (matchers_of (fields_of (value_at (codes "hooks") root)))

has_command-push :
    (c : Text) (h : Value) (hooks : Items)
    → has_command c (push h hooks) ≡ (has_command c hooks || is_command c h)
unfolding has_command push
has_command-push c h nil = ground arith
has_command-push c h (cons g hooks) = ground (arith, has_command-push c h hooks)

is_command-our_entry : (c d : Text) → is_command c (our_entry d) ≡ text_eq d c
unfolding find_field text_eq
is_command-our_entry c d = refl

pub hooks_of-put :
    (hooks : Items) (fs : Fields) → hooks_of (object (put (codes "hooks") (array hooks) fs)) ≡ hooks
hooks_of-put hooks fs =
    rw (
      find_field-put (codes "hooks") (codes "hooks") (array hooks) fs,
      text_eq_refl (codes "hooks"),
    )

has_same_command :
    (c d : Text) (hooks : Items)
    → has_command d hooks ≡ true
    → has_command c hooks ≡ (has_command c hooks || text_eq d c)
has_same_command c d hooks h = elim (Bool-cases (text_eq d c)) [
  | inl e ↦
      let same = ap (λ t. has_command t hooks) (sym ((text_eq_iff d c).0 e)) ∙ h in rw same refl
  | inr e ↦ rw e (ground arith)
]

has_command-add :
    (c d : Text) (m : Value)
    → has_command c (hooks_of (add_to_entry d m)) ≡ (has_command c (hooks_of m) || text_eq d c)
unfolding add_to_entry
has_command-add c d m = elim (Bool-cases (has_command d (hooks_of m))) [
  | inl e ↦ rw e (has_same_command c d (hooks_of m) e)
  | inr e ↦ rw e (
      ap (has_command c) (hooks_of-put (push (our_entry d) (hooks_of m)) (fields_of m))
      ∙ has_command-push c (our_entry d) (hooks_of m)
      ∙ ap (λ b. has_command c (hooks_of m) || b) (is_command-our_entry c d))
]

has_command-our_matcher : (c d : Text) → has_command c (hooks_of (our_matcher d)) ≡ text_eq d c
unfolding has_command find_field text_eq
has_command-our_matcher c d = ground arith

is_registered-merge :
    (c d : Text) (matchers : Items)
    → is_registered c (merge_matchers d matchers) ≡ (is_registered c matchers || text_eq d c)
unfolding is_registered merge_matchers
is_registered-merge c d nil = ground (arith, has_command-our_matcher c d)
is_registered-merge c d (cons m matchers) =
    ground (arith, has_command-add c d m, is_registered-merge c d matchers)

pub value_at-put : (k : Text) (v : Value) (fs : Fields) → value_at k (put k v fs) ≡ v
value_at-put k v fs = rw (find_field-put k k v fs, text_eq_refl k)

pub runs_hook-merge :
    (c d : Text) (root : Fields)
    → runs_hook c (merge_user_prompt_submit_hook d root) ≡ (runs_hook c root || text_eq d c)
unfolding runs_hook merge_user_prompt_submit_hook
runs_hook-merge c d root =
    let hooks = nested_map (codes "hooks") root in
    ap (λ v. is_registered c (matchers_of (fields_of v))) (value_at-put (codes "hooks") _ root)
    ∙ ap (λ v. is_registered c (items_of v))
        (value_at-put (codes "UserPromptSubmit") (array (merge_matchers d (matchers_of hooks)))
          hooks)
    ∙ is_registered-merge c d (matchers_of hooks)

missing_in-object :
    (c : Text) (v : Value)
    → missing_in c (as_object v) ≡ not (is_registered c (matchers_of (fields_of v)))
unfolding is_registered find_field
missing_in-object c null = refl
missing_in-object c (bool b) = refl
missing_in-object c (number n) = refl
missing_in-object c (string t) = refl
missing_in-object c (array xs) = refl
missing_in-object c (object fs) = refl

needs_hook_update_lem :
    (c : Text) (root : Fields)
    → needs_hook_update c root ≡ (not (text_eq c []) && not (runs_hook c root))
unfolding needs_hook_update runs_hook
needs_hook_update_lem c root = ground (arith, missing_in-object c (value_at (codes "hooks") root))

pub runs_hook_same :
    (c d : Text) (root : Fields)
    → runs_hook d root ≡ true
    → runs_hook c root ≡ (runs_hook c root || text_eq d c)
runs_hook_same c d root h = elim (Bool-cases (text_eq d c)) [
  | inl e ↦ let same = ap (λ t. runs_hook t root) (sym ((text_eq_iff d c).0 e)) ∙ h in rw same refl
  | inr e ↦ rw e (ground arith)
]

pub merge-find_field :
    (c l : Text) (root : Fields)
    → text_eq (codes "hooks") l ≡ false
    → find_field l (merge_user_prompt_submit_hook c root) ≡ find_field l root
unfolding merge_user_prompt_submit_hook
merge-find_field c l root h = rw (find_field-put (codes "hooks") l _ root, h)

pub needs_hook_update-command :
    (c : Text) (root : Fields)
    → text_eq c [] ≡ false
    → needs_hook_update c root ≡ not (runs_hook c root)
needs_hook_update-command c root h = ground (arith, needs_hook_update_lem c root, h)

pub needs_hook_update-merge :
    (c : Text) (root : Fields) → needs_hook_update c (merge_user_prompt_submit_hook c root) ≡ false
needs_hook_update-merge c root = ground (
  arith,
  needs_hook_update_lem c (merge_user_prompt_submit_hook c root),
  runs_hook-merge c c root,
  text_eq_refl c,
)
