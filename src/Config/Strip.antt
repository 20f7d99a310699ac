-- ===== src/Config/Strip.antt =====
-- internal/ideconfig/remove.go, pruneUserPromptSubmitHook: what it leaves of the hooks.
use a2abridge.Config.Registrations.{
  registrations, is_not_ours, registrations-prune, registrations_same,
}
use a2abridge.Config.Removed.{is_registered-prune, is_registered_same, prune-prune}
use a2abridge.Prelude.{
  filter, Text, codes, text_eq, text_eq_refl, ◌≡◌, refl, sym, ap, ◌∙◌, Bool, true, false, not, ◌&&◌,
  Option, none, some,
}
use a2abridge.Config.Values.{
  Value, null, bool, number, string, array, object, Items, nil, cons, Fields, find_field, value_at,
  put, remove, as_array, items_of, find_field-put, find_field-remove,
}
use a2abridge.Config.Hooks.{is_registered, matchers_of}
use a2abridge.Config.Remove.{
  is_our_command, prune_matchers, with_matchers, prune_list, prune_user_prompt_submit_hook,
}
use a2abridge.Config.Registered.{value_at-put}

-- The commands that are registered below the key "hooks".
abbrev pub registers : Text → Fields → Bool
registers c hooks = is_registered c (matchers_of hooks)

abbrev event : Text
event = codes "UserPromptSubmit"

pub value_at-remove : (k : Text) (fs : Fields) → value_at k (remove k fs) ≡ null
value_at-remove k fs = rw (find_field-remove k k fs, text_eq_refl k)

-- What reads the entries reads those that the pruning left.
module _ {X : Type 0} (read : Items → X) where
  read-with :
      (hooks : Fields) (p : Items × Bool) (x : X)
      → (p.1 ≡ false → read (matchers_of hooks) ≡ x)
      → read p.0 ≡ x
      → read (matchers_of (with_matchers hooks p).0) ≡ x
  read-with hooks (out, false) x h k = h refl
  read-with hooks (nil, true) x h k = ap (λ v. read (items_of v)) (value_at-remove event hooks) ∙ k
  read-with hooks (cons m out, true) x h k =
      ap (λ v. read (items_of v)) (value_at-put event (array (cons m out)) hooks) ∙ k

  module _ (g : X → X) (pruned : (ms : Items) → read (prune_matchers ms).0 ≡ g (read ms))
      (unchanged : (ms : Items)
        → (prune_matchers ms).1 ≡ false
        → read (prune_matchers ms).0 ≡ read ms)
      (empty : read nil ≡ g (read nil)) where
    read_at :
        (hooks : Fields) (v : Value)
        → value_at event hooks ≡ v
        → read (matchers_of (prune_list hooks (as_array v)).0) ≡ g (read (items_of v))
    read_at hooks (array ms) e =
        read-with hooks (prune_matchers ms) (g (read ms))
          (λ k. ap (λ w. read (items_of w)) e ∙ sym (unchanged ms k) ∙ pruned ms) (pruned ms)
    read_at hooks null e = ap (λ w. read (items_of w)) e ∙ empty
    read_at hooks (bool b) e = ap (λ w. read (items_of w)) e ∙ empty
    read_at hooks (number n) e = ap (λ w. read (items_of w)) e ∙ empty
    read_at hooks (string t) e = ap (λ w. read (items_of w)) e ∙ empty
    read_at hooks (object fs) e = ap (λ w. read (items_of w)) e ∙ empty

    read-prune :
        (hooks : Fields)
        → read (matchers_of (prune_user_prompt_submit_hook hooks).0) ≡ g (read (matchers_of hooks))
    unfolding prune_user_prompt_submit_hook
    read-prune hooks = read_at hooks (value_at event hooks) refl

pub registers-prune :
    (c : Text) (hooks : Fields)
    → registers c (prune_user_prompt_submit_hook hooks).0
      ≡ (registers c hooks && not (is_our_command c))
unfolding is_registered
registers-prune c hooks =
    read-prune (is_registered c) (λ b. b && not (is_our_command c)) (is_registered-prune c)
      (is_registered_same c) refl hooks

pub hooks-prune :
    (j : Text) (hooks : Fields)
    → text_eq (codes "hooks") j ≡ false
    → registrations j (matchers_of (prune_user_prompt_submit_hook hooks).0)
      ≡ filter is_not_ours (registrations j (matchers_of hooks))
hooks-prune j hooks h =
    read-prune (registrations j) (filter is_not_ours) (λ ms. registrations-prune j ms h)
      (λ ms e. registrations_same j ms h e) refl hooks

with-other_event :
    (e : Text) (hooks : Fields) (p : Items × Bool)
    → text_eq event e ≡ false
    → find_field e (with_matchers hooks p).0 ≡ find_field e hooks
with-other_event e hooks (out, false) h = refl
with-other_event e hooks (nil, true) h = rw (find_field-remove event e hooks, h) refl
with-other_event e hooks (cons m out, true) h =
    rw (find_field-put event e (array (cons m out)) hooks, h) refl

-- The hooks of other events stay.
pub prune-other_event :
    (e : Text) (hooks : Fields)
    → text_eq event e ≡ false
    → find_field e (prune_user_prompt_submit_hook hooks).0 ≡ find_field e hooks
unfolding prune_user_prompt_submit_hook
prune-other_event e hooks h = go (as_array (value_at event hooks))
  where
    go : (o : Option Items) → find_field e (prune_list hooks o).0 ≡ find_field e hooks
    go none = refl
    go (some ms) = with-other_event e hooks (prune_matchers ms) h

with_matchers-changed : (hooks : Fields) (p : Items × Bool) → (with_matchers hooks p).1 ≡ p.1
with_matchers-changed hooks (out, false) = refl
with_matchers-changed hooks (nil, true) = refl
with_matchers-changed hooks (cons m out, true) = refl

changed_at :
    (hooks : Fields) (v : Value)
    → value_at event hooks ≡ v
    → (prune_user_prompt_submit_hook hooks).1 ≡ (prune_list hooks (as_array v)).1
unfolding prune_user_prompt_submit_hook
changed_at hooks v e = ap (λ w. (prune_list hooks (as_array w)).1) e

with-prune :
    (hooks : Fields) (p : Items × Bool)
    → (prune_matchers p.0).1 ≡ false
    → (p.1 ≡ false → (prune_user_prompt_submit_hook hooks).1 ≡ false)
    → (prune_user_prompt_submit_hook (with_matchers hooks p).0).1 ≡ false
with-prune hooks (out, false) h k = k refl
with-prune hooks (nil, true) h k =
    changed_at (remove event hooks) null (value_at-remove event hooks)
with-prune hooks (cons m out, true) h k =
    let hooks' = put event (array (cons m out)) hooks in
    changed_at hooks' (array (cons m out)) (value_at-put event (array (cons m out)) hooks)
    ∙ with_matchers-changed hooks' (prune_matchers (cons m out))
    ∙ h

twice_at :
    (hooks : Fields) (v : Value)
    → value_at event hooks ≡ v
    → (prune_user_prompt_submit_hook (prune_list hooks (as_array v)).0).1 ≡ false
twice_at hooks (array ms) e =
    with-prune hooks (prune_matchers ms) (prune-prune ms)
      (λ k. changed_at hooks (array ms) e ∙ with_matchers-changed hooks (prune_matchers ms) ∙ k)
twice_at hooks null e = changed_at hooks null e
twice_at hooks (bool b) e = changed_at hooks (bool b) e
twice_at hooks (number n) e = changed_at hooks (number n) e
twice_at hooks (string t) e = changed_at hooks (string t) e
twice_at hooks (object fs) e = changed_at hooks (object fs) e

pub prune_twice :
    (hooks : Fields)
    → (prune_user_prompt_submit_hook (prune_user_prompt_submit_hook hooks).0).1 ≡ false
unfolding prune_user_prompt_submit_hook
prune_twice hooks = twice_at hooks (value_at event hooks) refl
