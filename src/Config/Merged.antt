-- ===== src/Config/Merged.antt =====
-- internal/ideconfig/claude.go, mergeUserPromptSubmitHook: where the hook goes, and what stays.
use a2abridge.Config.Registered.{
  runs_hook, value_at-put, runs_hook-merge, runs_hook_same, merge-find_field,
  needs_hook_update-command, needs_hook_update-merge,
}
use a2abridge.Config.Entry.{Spec, nested_map}
use a2abridge.Prelude.{
  Bool-cases, Text, codes, text_eq, text_eq_iff, ◌≡◌, refl, sym, ap, ◌∙◌, ◌⊎◌, inl, inr, true,
  false, not, ◌||◌, List, [], ◌∷◌, ◌++◌, arith,
}
use a2abridge.Config.Values.{
  Value, null, bool, number, string, array, object, Items, nil, cons, Fields, find_field, value_at,
  put, fields_of, items_of, text_of, push, find_field-put,
}
use a2abridge.Config.Hooks.{
  has_command, hooks_of, is_registered, matchers_of, needs_hook_update, our_entry, matches_all,
  add_to_entry, merge_matchers, merge_user_prompt_submit_hook, register_hook,
}
use a2abridge.Config.Registrations.{list_of, under, entry_hooks, registrations, entry_hooks-put}

-- A list with one element more.
pub data Inserted {ℓ} {A : Type ℓ} (x : A) : List A → List A → Type ℓ where
  here : (l : List A) → Inserted x l (x ∷ l)
  there : (y : A) (k l : List A) → Inserted x k l → Inserted x (y ∷ k) (y ∷ l)

module _ {A : Type 0} (x : A) where
  Inserted-behind : (a k l : List A) → Inserted x k l → Inserted x (a ++ k) (a ++ l)
  Inserted-behind [] k l h = h
  Inserted-behind (y ∷ a) k l h = there y (a ++ k) (a ++ l) (Inserted-behind a k l h)

  Inserted-between : (a b : List A) → Inserted x (a ++ b) ((a ++ x ∷ []) ++ b)
  Inserted-between [] b = here b
  Inserted-between (y ∷ a) b = there y (a ++ b) ((a ++ x ∷ []) ++ b) (Inserted-between a b)

-- Our registration: our hook, in an entry that matches everything.
abbrev pub our_registration : Text → Value × Value
our_registration c = (string (codes "*"), our_entry c)

star_text : (v : Value) → text_eq (text_of v) (codes "*") ≡ true → v ≡ string (codes "*")
unfolding text_eq
star_text (string t) e = ap string ((text_eq_iff t (codes "*")).0 e)
star_text null e = absurd (grind arith)
star_text (bool b) e = absurd (grind arith)
star_text (number n) e = absurd (grind arith)
star_text (array xs) e = absurd (grind arith)
star_text (object fs) e = absurd (grind arith)

matches_all-star :
    (m : Value)
    → matches_all m ≡ true
    → value_at (codes "matcher") (fields_of m) ≡ string (codes "*")
matches_all-star (object fs) e = star_text (value_at (codes "matcher") fs) e
matches_all-star null e = absurd (grind arith)
matches_all-star (bool b) e = absurd (grind arith)
matches_all-star (number n) e = absurd (grind arith)
matches_all-star (string t) e = absurd (grind arith)
matches_all-star (array xs) e = absurd (grind arith)

under-push :
    (v h : Value) (hooks : Items)
    → under v (list_of (push h hooks)) ≡ under v (list_of hooks) ++ (v, h) ∷ []
unfolding push
under-push v h nil = refl
under-push v h (cons g hooks) = ap (λ l. (v, g) ∷ l) (under-push v h hooks)

abbrev matcher : Text
matcher = codes "matcher"

-- An entry that matches everything and does not have the command gets it behind its hooks.
add-hooks :
    (c : Text) (m : Value)
    → matches_all m ≡ true
    → has_command c (hooks_of m) ≡ false
    → entry_hooks matcher (add_to_entry c m) ≡ entry_hooks matcher m ++ our_registration c ∷ []
unfolding add_to_entry
add-hooks c m e h = rw h (
    entry_hooks-put matcher (push (our_entry c) (hooks_of m)) (fields_of m) (unfold text_eq in refl)
    ∙ under-push (value_at matcher (fields_of m)) (our_entry c) (hooks_of m)
    ∙ ap (λ v. entry_hooks matcher m ++ (v, our_entry c) ∷ []) (matches_all-star m e))

pub registrations-merge :
    (c : Text) (matchers : Items)
    → is_registered c matchers ≡ false
    → Inserted
        (our_registration c)
        (registrations matcher matchers)
        (registrations matcher (merge_matchers c matchers))
unfolding merge_matchers is_registered find_field text_eq
registrations-merge c nil h = here []
registrations-merge c (cons m matchers) h = elim (Bool-cases (matches_all m)) [
  | inl e ↦
      rw (e, add-hooks c m e (ground (arith, h)))
        (Inserted-between (our_registration c) (entry_hooks matcher m)
          (registrations matcher matchers))
  | inr e ↦ rw e (
      Inserted-behind (our_registration c) (entry_hooks matcher m) (registrations matcher matchers)
        (registrations matcher (merge_matchers c matchers))
        (registrations-merge c matchers (ground (arith, h))))
]

-- The registrations of settings.json, by the matchers of their entries.
abbrev pub registered_hooks : Fields → List (Value × Value)
registered_hooks root = registrations matcher (matchers_of (nested_map (codes "hooks") root))

merge-hooks :
    (c : Text) (root : Fields)
    → nested_map (codes "hooks") (merge_user_prompt_submit_hook c root)
      ≡ put
          (codes "UserPromptSubmit")
          (array (merge_matchers c (matchers_of (nested_map (codes "hooks") root))))
          (nested_map (codes "hooks") root)
unfolding merge_user_prompt_submit_hook
merge-hooks c root = ap fields_of (value_at-put (codes "hooks") _ root)

merge-other_event :
    (c event : Text) (root : Fields)
    → text_eq (codes "UserPromptSubmit") event ≡ false
    → find_field event (nested_map (codes "hooks") (merge_user_prompt_submit_hook c root))
      ≡ find_field event (nested_map (codes "hooks") root)
merge-other_event c event root h =
    ap (find_field event) (merge-hooks c root)
    ∙ rw
        (
          find_field-put (codes "UserPromptSubmit") event
              (array (merge_matchers c (matchers_of (nested_map (codes "hooks") root))))
              (nested_map (codes "hooks") root),
          h,
        )
        refl

merge-Inserted :
    (c : Text) (root : Fields)
    → runs_hook c root ≡ false
    → Inserted
        (our_registration c)
        (registered_hooks root)
        (registered_hooks (merge_user_prompt_submit_hook c root))
unfolding runs_hook
merge-Inserted c root h =
    let matchers = matchers_of (nested_map (codes "hooks") root) in
    let same : registered_hooks (merge_user_prompt_submit_hook c root)
        ≡ registrations matcher (merge_matchers c matchers) =
      ap (λ fs. registrations matcher (matchers_of fs)) (merge-hooks c root)
      ∙ ap (λ v. registrations matcher (items_of v))
          (value_at-put (codes "UserPromptSubmit") (array (merge_matchers c matchers))
            (nested_map (codes "hooks") root)) in
    rw same (registrations-merge c matchers h)

-- Registering a hook leaves settings.json as it is where the command is registered. Otherwise the
-- registered hooks, each with the matcher of its entry, are those of before, in order, and our hook
-- once, in an entry that matches everything: every other command is registered exactly where it was.
-- The hooks of other events and the other keys of the file keep their values, and to register the hook
-- again changes nothing.
pub register_hook_lem :
    (spec : Spec) (root : Fields) (c event l : Text)
    → text_eq spec.hook_command [] ≡ false
    → text_eq (codes "UserPromptSubmit") event ≡ false
    → text_eq (codes "hooks") l ≡ false
    → let (root', changed) = register_hook spec root in
      (changed ≡ not (runs_hook spec.hook_command root))
      × (((runs_hook spec.hook_command root ≡ true) × (root' ≡ root))
          ⊎ ((runs_hook spec.hook_command root ≡ false)
              × Inserted
                  (our_registration spec.hook_command)
                  (registered_hooks root)
                  (registered_hooks root')))
      × (runs_hook c root' ≡ (runs_hook c root || text_eq spec.hook_command c))
      × (find_field event (nested_map (codes "hooks") root')
          ≡ find_field event (nested_map (codes "hooks") root))
      × (find_field l root' ≡ find_field l root)
      × (register_hook spec root' ≡ (root', false))
unfolding register_hook
register_hook_lem spec root c event l h g k =
    let command = spec.hook_command in
    let asked = needs_hook_update-command command root h in
    elim (Bool-cases (needs_hook_update command root)) [
      | inl e ↦ simp e (
        sym e ∙ asked,
        inr (ground (arith, asked, e), merge-Inserted command root (ground (arith, asked, e))),
        runs_hook-merge c command root,
        merge-other_event command event root g,
        merge-find_field command l root k,
        rw (needs_hook_update-merge command root) refl,
      )
      | inr e ↦ simp e (
        sym e ∙ asked,
        inl (ground (arith, asked, e), refl),
        runs_hook_same c command root (ground (arith, asked, e)),
        refl,
        refl,
        refl,
      )
    ]
