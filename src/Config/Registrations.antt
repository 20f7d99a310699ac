-- ===== src/Config/Registrations.antt =====
-- internal/ideconfig/claude.go and remove.go: the hooks that are registered, in order, each with what
-- its matcher entry has at a key.
use a2abridge.Prelude.{
  Bool-cases, filter, Text, codes, text_eq, ◌≡◌, refl, sym, ap, ◌∙◌, inl, inr, Bool, false, not,
  Option, none, some, List, [], ◌∷◌, ◌++◌, arith,
}
use a2abridge.Config.Values.{
  Value, null, bool, number, string, array, object, Items, nil, cons, Fields, find_field, value_at,
  put, fields_of, find_field-put,
}
use a2abridge.Config.Hooks.{command_of, hooks_of}
use a2abridge.Config.Remove.{
  is_our_command, filter_hooks, keep_entry, prune_entry, keep_matcher, prune_matchers,
}
use a2abridge.Config.Registered.{hooks_of-put}
use a2abridge.Config.Removed.{filter_same, keep_entry_same, keep_matcher-changed}

abbrev pub list_of : Items → List Value
list_of nil = []
list_of (cons v xs) = v ∷ list_of xs

-- Each hook with the same value.
abbrev pub under : Value → List Value → List (Value × Value)
under v [] = []
under v (h ∷ l) = (v, h) ∷ under v l

-- The hooks of one matcher entry, each with what the entry has at a key.
abbrev pub entry_hooks : Text → Value → List (Value × Value)
entry_hooks j m = under (value_at j (fields_of m)) (list_of (hooks_of m))

abbrev pub registrations : Text → Items → List (Value × Value)
registrations j nil = []
registrations j (cons m matchers) = entry_hooks j m ++ registrations j matchers

-- Whether a registration is not of our hook.
abbrev pub is_not_ours : Value × Value → Bool
is_not_ours p = not (is_our_command (command_of p.1))

filter_append :
    (p : Value × Value → Bool) (k l : List (Value × Value))
    → filter p (k ++ l) ≡ filter p k ++ filter p l
filter_append p [] l = refl
filter_append p (x ∷ k) l = ground (arith, filter_append p k l)

under-filter :
    (v : Value) (hooks : Items)
    → under v (list_of (filter_hooks hooks).0) ≡ filter is_not_ours (under v (list_of hooks))
unfolding filter_hooks
under-filter v nil = refl
under-filter v (cons h hooks) = elim (Bool-cases (is_our_command (command_of h))) [
  | inl e ↦ simp e (under-filter v hooks)
  | inr e ↦ simp e (ap (λ l. (v, h) ∷ l) (under-filter v hooks))
]

-- What became of a matcher entry.
abbrev kept_hooks : Text → Option Value → List (Value × Value)
kept_hooks j none = []
kept_hooks j (some m) = entry_hooks j m

pub entry_hooks-put :
    (j : Text) (hooks : Items) (fs : Fields)
    → text_eq (codes "hooks") j ≡ false
    → entry_hooks j (object (put (codes "hooks") (array hooks) fs))
      ≡ under (value_at j fs) (list_of hooks)
entry_hooks-put j hooks fs h =
    ap (λ xs. under (value_at j (put (codes "hooks") (array hooks) fs)) (list_of xs))
      (hooks_of-put hooks fs)
    ∙ rw (find_field-put (codes "hooks") j (array hooks) fs, h) refl

kept_hooks-keep :
    (j : Text) (entry : Fields) (p : Items × Bool)
    → text_eq (codes "hooks") j ≡ false
    → kept_hooks j (keep_entry entry p).0 ≡ under (value_at j entry) (list_of p.0)
kept_hooks-keep j entry (nil, b) h = refl
kept_hooks-keep j entry (cons g hooks, b) h = entry_hooks-put j (cons g hooks) entry h

prune_entry-hooks :
    (j : Text) (m : Value)
    → text_eq (codes "hooks") j ≡ false
    → kept_hooks j (prune_entry m).0 ≡ filter is_not_ours (entry_hooks j m)
unfolding prune_entry find_field
prune_entry-hooks j (object entry) h =
    kept_hooks-keep j entry (filter_hooks (hooks_of (object entry))) h
    ∙ under-filter (value_at j entry) (hooks_of (object entry))
prune_entry-hooks j null h = refl
prune_entry-hooks j (bool b) h = refl
prune_entry-hooks j (number n) h = refl
prune_entry-hooks j (string t) h = refl
prune_entry-hooks j (array xs) h = refl

registrations-keep :
    (j : Text) (p : Option Value × Bool) (q : Items × Bool)
    → registrations j (keep_matcher p q).0 ≡ kept_hooks j p.0 ++ registrations j q.0
registrations-keep j (none, b) q = refl
registrations-keep j (some m, b) q = refl

-- The pruning takes out our registrations and leaves the others, in order, with their entries.
pub registrations-prune :
    (j : Text) (matchers : Items)
    → text_eq (codes "hooks") j ≡ false
    → registrations j (prune_matchers matchers).0 ≡ filter is_not_ours (registrations j matchers)
unfolding prune_matchers
registrations-prune j nil h = refl
registrations-prune j (cons m matchers) h =
    registrations-keep j (prune_entry m) (prune_matchers matchers)
    ∙ ap (λ l. l ++ registrations j (prune_matchers matchers).0) (prune_entry-hooks j m h)
    ∙ ap (λ l. filter is_not_ours (entry_hooks j m) ++ l) (registrations-prune j matchers h)
    ∙ sym (filter_append is_not_ours (entry_hooks j m) (registrations j matchers))

prune_entry-hooks_same :
    (j : Text) (m : Value)
    → text_eq (codes "hooks") j ≡ false
    → (prune_entry m).1 ≡ false
    → kept_hooks j (prune_entry m).0 ≡ entry_hooks j m
unfolding prune_entry
prune_entry-hooks_same j (object entry) h e =
    let hooks = hooks_of (object entry) in
    kept_hooks-keep j entry (filter_hooks hooks) h
    ∙ ap (λ xs. under (value_at j entry) (list_of xs))
        (filter_same hooks (keep_entry_same entry (filter_hooks hooks) e))
prune_entry-hooks_same j null h e = refl
prune_entry-hooks_same j (bool b) h e = refl
prune_entry-hooks_same j (number n) h e = refl
prune_entry-hooks_same j (string t) h e = refl
prune_entry-hooks_same j (array xs) h e = refl

pub registrations_same :
    (j : Text) (matchers : Items)
    → text_eq (codes "hooks") j ≡ false
    → (prune_matchers matchers).1 ≡ false
    → registrations j (prune_matchers matchers).0 ≡ registrations j matchers
unfolding prune_matchers
registrations_same j nil h e = refl
registrations_same j (cons m matchers) h e =
    let parts = sym (keep_matcher-changed (prune_entry m) (prune_matchers matchers)) ∙ e in
    registrations-keep j (prune_entry m) (prune_matchers matchers)
    ∙ ap (λ l. l ++ registrations j (prune_matchers matchers).0)
        (prune_entry-hooks_same j m h (ground (arith, parts)))
    ∙ ap (λ l. entry_hooks j m ++ l) (registrations_same j matchers h (ground (arith, parts)))
