-- ===== src/Config/Removed.antt =====
-- internal/ideconfig/remove.go, pruneUserPromptSubmitHook: which commands stay registered.
use a2abridge.Prelude.{
  Text, codes, text_eq_iff, ◌≡◌, refl, ap, ◌∙◌, Bool, true, false, not, ◌&&◌, ◌||◌, Option, none,
  some, arith,
}
use a2abridge.Config.Values.{
  Value, null, bool, number, string, array, object, Items, nil, cons, Fields, find_field, value_at,
  put, text_of,
}
use a2abridge.Config.Hooks.{command_of, is_command, has_command, hooks_of, is_registered}
use a2abridge.Config.Remove.{
  is_our_command, filter_hooks, keep_entry, prune_entry, keep_matcher, prune_matchers,
}
use a2abridge.Config.Registered.{hooks_of-put}

is_command-command_of : (c : Text) (h : Value) → is_command c h ≡ true → command_of h ≡ c
is_command-command_of c (object fs) e =
    (text_eq_iff (text_of (value_at (codes "command") fs)) c).0 e
is_command-command_of c null e = absurd (grind arith)
is_command-command_of c (bool b) e = absurd (grind arith)
is_command-command_of c (number n) e = absurd (grind arith)
is_command-command_of c (string t) e = absurd (grind arith)
is_command-command_of c (array xs) e = absurd (grind arith)

is_command-is_our_command :
    (c : Text) (h : Value)
    → is_command c h ≡ true
    → is_our_command (command_of h) ≡ is_our_command c
is_command-is_our_command c h e = ap is_our_command (is_command-command_of c h e)

has_command-filter :
    (c : Text) (hooks : Items)
    → has_command c (filter_hooks hooks).0 ≡ (has_command c hooks && not (is_our_command c))
unfolding has_command filter_hooks
has_command-filter c nil = refl
has_command-filter c (cons h hooks) =
    ground (arith, has_command-filter c hooks, is_command-is_our_command c h)

pub filter_same : (hooks : Items) → (filter_hooks hooks).1 ≡ false → (filter_hooks hooks).0 ≡ hooks
unfolding filter_hooks
filter_same nil e = refl
filter_same (cons h hooks) e = ground (arith, filter_same hooks, e)

filter-filter : (hooks : Items) → (filter_hooks (filter_hooks hooks).0).1 ≡ false
unfolding filter_hooks
filter-filter nil = refl
filter-filter (cons h hooks) = ground (arith, filter-filter hooks)

-- Whether what became of a matcher entry has a command.
abbrev kept_command : Text → Option Value → Bool
kept_command c none = false
kept_command c (some m) = has_command c (hooks_of m)

kept_command-keep :
    (c : Text) (entry : Fields) (p : Items × Bool)
    → kept_command c (keep_entry entry p).0 ≡ has_command c p.0
unfolding has_command
kept_command-keep c entry (nil, b) = refl
kept_command-keep c entry (cons h hooks, b) = ap (has_command c) (hooks_of-put (cons h hooks) entry)

prune_entry-command :
    (c : Text) (m : Value)
    → kept_command c (prune_entry m).0 ≡ (has_command c (hooks_of m) && not (is_our_command c))
unfolding prune_entry has_command find_field
prune_entry-command c (object entry) =
    kept_command-keep c entry (filter_hooks (hooks_of (object entry)))
    ∙ has_command-filter c (hooks_of (object entry))
prune_entry-command c null = refl
prune_entry-command c (bool b) = refl
prune_entry-command c (number n) = refl
prune_entry-command c (string t) = refl
prune_entry-command c (array xs) = refl

pub keep_entry_same :
    (entry : Fields) (p : Items × Bool) → (keep_entry entry p).1 ≡ false → p.1 ≡ false
keep_entry_same entry (nil, b) e = absurd (grind arith)
keep_entry_same entry (cons h hooks, b) e = e

prune_entry_same :
    (c : Text) (m : Value)
    → (prune_entry m).1 ≡ false
    → kept_command c (prune_entry m).0 ≡ has_command c (hooks_of m)
unfolding prune_entry
prune_entry_same c (object entry) e =
    let hooks = hooks_of (object entry) in
    kept_command-keep c entry (filter_hooks hooks)
    ∙ ap (has_command c) (filter_same hooks (keep_entry_same entry (filter_hooks hooks) e))
prune_entry_same c null e = refl
prune_entry_same c (bool b) e = refl
prune_entry_same c (number n) e = refl
prune_entry_same c (string t) e = refl
prune_entry_same c (array xs) e = refl

-- Whether what became of a matcher entry would change again.
abbrev changes_again : Option Value → Bool
changes_again none = false
changes_again (some m) = (prune_entry m).1

keep_entry-cons :
    (entry : Fields) (h : Value) (hooks : Items) (p : Items × Bool)
    → p.0 ≡ cons h hooks
    → p.1 ≡ false
    → (keep_entry entry p).1 ≡ false
keep_entry-cons entry h hooks (nil, b) e k = absurd (grind arith)
keep_entry-cons entry h hooks (cons g gs, b) e k = k

changes_again-keep :
    (entry : Fields) (p : Items × Bool)
    → (filter_hooks p.0).1 ≡ false
    → changes_again (keep_entry entry p).0 ≡ false
unfolding prune_entry
changes_again-keep entry (nil, b) e = refl
changes_again-keep entry (cons h hooks, b) e =
    let kept = put (codes "hooks") (array (cons h hooks)) entry in
    ap (λ xs. (keep_entry kept (filter_hooks xs)).1) (hooks_of-put (cons h hooks) entry)
    ∙ keep_entry-cons kept h hooks (filter_hooks (cons h hooks)) (filter_same (cons h hooks) e) e

changes_again-prune : (m : Value) → changes_again (prune_entry m).0 ≡ false
unfolding prune_entry
changes_again-prune (object entry) =
    changes_again-keep entry (filter_hooks (hooks_of (object entry)))
      (filter-filter (hooks_of (object entry)))
changes_again-prune null = refl
changes_again-prune (bool b) = refl
changes_again-prune (number n) = refl
changes_again-prune (string t) = refl
changes_again-prune (array xs) = refl

is_registered-keep :
    (c : Text) (p : Option Value × Bool) (q : Items × Bool)
    → is_registered c (keep_matcher p q).0 ≡ (kept_command c p.0 || is_registered c q.0)
unfolding is_registered
is_registered-keep c (none, b) q = refl
is_registered-keep c (some m, b) q = refl

pub keep_matcher-changed :
    (p : Option Value × Bool) (q : Items × Bool) → (keep_matcher p q).1 ≡ (p.1 || q.1)
keep_matcher-changed (none, b) q = refl
keep_matcher-changed (some m, b) q = refl

pub is_registered-prune :
    (c : Text) (matchers : Items)
    → is_registered c (prune_matchers matchers).0
      ≡ (is_registered c matchers && not (is_our_command c))
unfolding is_registered prune_matchers
is_registered-prune c nil = refl
is_registered-prune c (cons m matchers) = ground (
  arith,
  is_registered-keep c (prune_entry m) (prune_matchers matchers),
  prune_entry-command c m,
  is_registered-prune c matchers,
)

pub is_registered_same :
    (c : Text) (matchers : Items)
    → (prune_matchers matchers).1 ≡ false
    → is_registered c (prune_matchers matchers).0 ≡ is_registered c matchers
unfolding is_registered prune_matchers
is_registered_same c nil e = refl
is_registered_same c (cons m matchers) e = ground (
  arith,
  is_registered-keep c (prune_entry m) (prune_matchers matchers),
  keep_matcher-changed (prune_entry m) (prune_matchers matchers),
  prune_entry_same c m,
  is_registered_same c matchers,
  e,
)

keep_matcher-prune :
    (p : Option Value × Bool) (q : Items × Bool)
    → changes_again p.0 ≡ false
    → (prune_matchers q.0).1 ≡ false
    → (prune_matchers (keep_matcher p q).0).1 ≡ false
unfolding prune_matchers
keep_matcher-prune (none, b) q h k = k
keep_matcher-prune (some m, b) q h k =
    keep_matcher-changed (prune_entry m) (prune_matchers q.0) ∙ ground (arith, h, k)

pub prune-prune : (matchers : Items) → (prune_matchers (prune_matchers matchers).0).1 ≡ false
unfolding prune_matchers
prune-prune nil = refl
prune-prune (cons m matchers) =
    keep_matcher-prune (prune_entry m) (prune_matchers matchers) (changes_again-prune m)
      (prune-prune matchers)
