-- ===== src/Guard/Subscribe.antt =====
-- internal/agent/guard.go, subscribeTaskID: which paths name a task.
use a2abridge.Prelude.{
  ◌==◌, Bool-cases, Option-cases, length, length-append, any-append, Text, text_eq, text_eq_iff,
  text_eq_refl, ℕ, ◌≡◌, refl, sym, ap, ◌∙◌, ◌≢◌, ◌↔◌, inl, inr, false, ◌||◌, Option, none, some, [],
  ◌∷◌, ◌++◌, arith,
}
use a2abridge.Strings.{cut_prefix, contains_rune, cut_prefix_sound}
use a2abridge.Guard.Defs.{
  rest_tasks_prefix, subscribe_action_suffix, cut_suffix, task_of_rest, subscribe_rest,
  subscribe_task_id, rest,
}

cut_suffix_sound : (s p r : Text) → cut_suffix s p ≡ some r → s ≡ r ++ p
unfolding cut_suffix
cut_suffix_sound [] p r h = ground (arith, text_eq_iff [] p)
cut_suffix_sound (c ∷ s) p r h = elim (Option-cases (cut_suffix s p)) [
  | inl e ↦ ground (arith, text_eq_iff (c ∷ s) p, e)
  | inr (f, e) ↦ ground (arith, text_eq_iff (c ∷ s) p, e, cut_suffix_sound s p f e)
]

longer : (c : ℕ) (r p : Text) → text_eq (c ∷ r ++ p) p ≡ false
longer c r p = elim (Bool-cases (text_eq (c ∷ r ++ p) p)) [
  | inr e ↦ e
  | inl e ↦
      let width = ap length ((text_eq_iff (c ∷ r ++ p) p).0 e) in
      absurd (omega (arith, width, length-append r p))
]

cut_suffix-append : (r p : Text) → p ≢ [] → cut_suffix (r ++ p) p ≡ some r
unfolding cut_suffix
cut_suffix-append [] [] n = absurd (n refl)
cut_suffix-append [] (c ∷ p) n = ground (arith, text_eq_refl (c ∷ p))
cut_suffix-append (c ∷ r) p n = rw (longer c r p, cut_suffix-append r p n)

cut_prefix-append : (p s : Text) → cut_prefix (p ++ s) p ≡ some s
unfolding cut_prefix
cut_prefix-append [] s = refl
cut_prefix-append (c ∷ p) s = ground (arith, cut_prefix-append p s)

contains_rune-append :
    (a b : Text) (c : ℕ) → contains_rune (a ++ b) c ≡ (contains_rune a c || contains_rune b c)
unfolding contains_rune
contains_rune-append a b c = any-append (λ d. d == c) a b

task_of_rest_sound :
    (o : Option Text) (id : Text) → task_of_rest o ≡ some id → (o ≡ some id) × (id ≢ [])
unfolding task_of_rest
task_of_rest_sound none id h = absurd (grind arith)
task_of_rest_sound (some []) id h = absurd (grind arith)
task_of_rest_sound (some (c ∷ t)) id h = (h, λ e. grind arith)

task_of_rest-some : (id : Text) → id ≢ [] → task_of_rest (some id) ≡ some id
unfolding task_of_rest
task_of_rest-some [] n = absurd (n refl)
task_of_rest-some (c ∷ id) n = refl

abbrev pub IsTaskId : Text → Type 0
IsTaskId id = (id ≢ []) × (contains_rune id b'/' ≡ false)

-- The path of a subscription.
abbrev pub subscribe_path : Text → Text
subscribe_path id = rest_tasks_prefix ++ (id ++ subscribe_action_suffix)

suffix-ne-nil : subscribe_action_suffix ≢ []
unfolding subscribe_action_suffix
suffix-ne-nil e = cc

suffix_no_slash : contains_rune subscribe_action_suffix b'/' ≡ false
unfolding subscribe_action_suffix contains_rune
suffix_no_slash = refl

rest_complete :
    (id : Text) → IsTaskId id → subscribe_rest (some (id ++ subscribe_action_suffix)) ≡ some id
unfolding subscribe_rest
rest_complete id (n, no_slash) =
    rw (contains_rune-append id subscribe_action_suffix b'/', no_slash, suffix_no_slash)
      (rw (cut_suffix-append id subscribe_action_suffix suffix-ne-nil) (task_of_rest-some id n))

rest_sound :
    (rest id : Text)
    → subscribe_rest (some rest) ≡ some id
    → IsTaskId id × (rest ≡ id ++ subscribe_action_suffix)
unfolding subscribe_rest
rest_sound rest id h = elim (Bool-cases (contains_rune rest b'/')) [
  | inl e ↦ absurd (ground (arith, e, h))
  | inr e ↦
      let t : task_of_rest (cut_suffix rest subscribe_action_suffix) ≡ some id =
        ground (arith, e, h) in
      let (f, n) = task_of_rest_sound (cut_suffix rest subscribe_action_suffix) id t in
      let parts = cut_suffix_sound rest subscribe_action_suffix id f in
      (
        (
          n,
          ground (
            arith,
            e,
            ap (λ x. contains_rune x b'/') parts,
            contains_rune-append id subscribe_action_suffix b'/',
          ),
        ),
        parts,
      )
]

pub subscribe_complete : (id : Text) → IsTaskId id → subscribe_task_id (subscribe_path id) ≡ some id
unfolding subscribe_task_id
subscribe_complete id v =
    rw (cut_prefix-append rest_tasks_prefix (id ++ subscribe_action_suffix)) (rest_complete id v)

subscribe_sound :
    (path id : Text) → subscribe_task_id path ≡ some id → IsTaskId id × (path ≡ subscribe_path id)
unfolding subscribe_task_id
subscribe_sound path id h = elim (Option-cases (cut_prefix path rest_tasks_prefix)) [
  | inl e ↦ absurd (none-some (ap subscribe_rest (sym e) ∙ h))
  | inr (rest, e) ↦
      let (v, parts) = rest_sound rest id (ap subscribe_rest (sym e) ∙ h) in
      (v, cut_prefix_sound path rest_tasks_prefix rest e ∙ ap (◌++◌ rest_tasks_prefix) parts)
]
  where
    none-some : subscribe_rest none ≡ some id → ⊥
    none-some h = unfold subscribe_rest in grind arith

-- A path names a task to subscribe to exactly if it is /tasks/{id}:subscribe for a nonempty id
-- without a slash, and then it names that id.
pub subscribe_task_id_lem :
    (path id : Text)
    → (subscribe_task_id path ≡ some id) ↔ (IsTaskId id × (path ≡ subscribe_path id))
subscribe_task_id_lem path id =
    (subscribe_sound path id, λ (v, e). ap subscribe_task_id e ∙ subscribe_complete id v)
