-- ===== src/Push/Retry.antt =====
-- internal/agent/push.go, deliver: how often and how long a delivery is tried.
use a2abridge.Prelude.{
  leb, leb→le, Bool-cases, ℕ, zero, suc, ◌+◌, ◌-◌, ◌*◌, ◌≤◌, ◌<◌, min, ◌≡◌, refl, sym, ap, ◌∙◌, ◌⊎◌,
  inl, inr, Bool, true, false, ◌||◌, some, arith,
}
use a2abridge.Push.Delivery.{
  RetryPolicy, default_retry_policy, Response, Post, accepted, retryable, permanent, post_once,
  Outcome, deliver_loop, deliver,
}

abbrev pub is_accepted : Post → Bool
is_accepted accepted = true
is_accepted _ = false

-- What a loop that started at an attempt reports: every attempt before the last was retryable, the
-- delivery succeeded exactly if the last was accepted, and the loop did not stop early.
pub record Explains (policy : RetryPolicy) (answer : ℕ → Response) (aborts : ℕ → Bool) (first : ℕ)
    (o : Outcome) : Type 0 where
  pub from_first : first ≤ o.attempts
  pub within : o.attempts ≤ policy.max_attempts
  pub retried : (k : ℕ) → first ≤ k → k < o.attempts → post_once (answer k) ≡ retryable
  pub verdict : o.delivered ≡ is_accepted (post_once (answer o.attempts))
  pub gave_up :
      post_once (answer o.attempts) ≡ retryable
      → (policy.max_attempts ≤ o.attempts) ⊎ (aborts o.attempts ≡ true)

post-cases : (p : Post) → (p ≡ accepted) ⊎ ((p ≡ permanent) ⊎ (p ≡ retryable))
post-cases accepted = inl refl
post-cases permanent = inr (inl refl)
post-cases retryable = inr (inr refl)

-- The sum of the delays behind `n` attempts, from a delay on.
abbrev pub delays : ℕ → ℕ → ℕ → ℕ
delays cap zero delay = 0
delays cap (suc n) delay = delay + delays cap n (min (delay * 2) cap)

module _ (policy : RetryPolicy) (answer : ℕ → Response) (aborts : ℕ → Bool) where
  abbrev Told : ℕ → ℕ → ℕ → ℕ → Type 0
  Told rounds attempt delay waited =
      (o : Outcome) × (deliver_loop policy answer aborts rounds attempt delay waited ≡ some o)
      × Explains policy answer aborts attempt o
      × (o.waited ≤ waited + delays policy.max_delay (policy.max_attempts - attempt) delay)

  stopped :
      (attempt waited : ℕ) (d : Bool)
      → attempt ≤ policy.max_attempts
      → d ≡ is_accepted (post_once (answer attempt))
      → (post_once (answer attempt) ≡ retryable
          → (policy.max_attempts ≤ attempt) ⊎ (aborts attempt ≡ true))
      → Explains policy answer aborts attempt
          (record { delivered = d; attempts = attempt; waited = waited })
  stopped attempt waited d b v g = record {
    from_first = omega arith;
    within = b;
    retried = λ k l h. absurd (omega arith);
    verdict = v;
    gave_up = g;
  }

  earlier :
      (attempt : ℕ) (o : Outcome)
      → post_once (answer attempt) ≡ retryable
      → Explains policy answer aborts (attempt + 1) o
      → Explains policy answer aborts attempt o
  earlier attempt o e x =
      let f = x.from_first in
      record {
        from_first = omega arith;
        within = x.within;
        retried = λ k l h. elim (nat-cases attempt k l) [
          | inl s ↦ ap (λ i. post_once (answer i)) (sym s) ∙ e
          | inr s ↦ x.retried k s h
        ];
        verdict = x.verdict;
        gave_up = x.gave_up;
      }
    where
      nat-cases : (a k : ℕ) → a ≤ k → (a ≡ k) ⊎ (a + 1 ≤ k)
      nat-cases a k l = elim (Bool-cases (leb (a + 1) k)) [
        | inl t ↦ inr (leb→le (a + 1) k t)
        | inr f ↦ inl (ground arith)
      ]

  on_accepted :
      (rounds attempt delay waited : ℕ)
      → attempt ≤ policy.max_attempts
      → post_once (answer attempt) ≡ accepted
      → Told (suc rounds) attempt delay waited
  unfolding deliver_loop
  on_accepted rounds attempt delay waited b e = (
    _,
    rw (e, deliver_loop),
    stopped attempt waited true b (rw (e, is_accepted)) (λ r. absurd (grind arith)),
    omega arith,
  )

  on_permanent :
      (rounds attempt delay waited : ℕ)
      → attempt ≤ policy.max_attempts
      → post_once (answer attempt) ≡ permanent
      → Told (suc rounds) attempt delay waited
  unfolding deliver_loop
  on_permanent rounds attempt delay waited b e = (
    _,
    rw (e, deliver_loop),
    stopped attempt waited false b (rw (e, is_accepted)) (λ r. absurd (grind arith)),
    omega arith,
  )

  on_given_up :
      (rounds attempt delay waited : ℕ)
      → attempt ≤ policy.max_attempts
      → post_once (answer attempt) ≡ retryable
      → (leb policy.max_attempts attempt || aborts attempt) ≡ true
      → Told (suc rounds) attempt delay waited
  unfolding deliver_loop
  on_given_up rounds attempt delay waited b e s = (
    _,
    rw (e, s, deliver_loop),
    stopped attempt waited false b (rw (e, is_accepted)) (λ r. gave),
    omega arith,
  )
    where
      gave : (policy.max_attempts ≤ attempt) ⊎ (aborts attempt ≡ true)
      gave = elim (Bool-cases (leb policy.max_attempts attempt)) [
        | inl t ↦ inl (leb→le policy.max_attempts attempt t)
        | inr f ↦ inr (ground arith)
      ]

  on_retry :
      (rounds attempt delay waited : ℕ)
      → post_once (answer attempt) ≡ retryable
      → (leb policy.max_attempts attempt || aborts attempt) ≡ false
      → attempt + 1 ≤ policy.max_attempts
      → Told rounds (attempt + 1) (min (delay * 2) policy.max_delay) (waited + delay)
      → Told (suc rounds) attempt delay waited
  unfolding deliver_loop
  on_retry rounds attempt delay waited e s u (o, r, x, t) =
      let left : policy.max_attempts - attempt ≡ suc (policy.max_attempts - (attempt + 1)) =
        omega arith in
      (o, rw (e, s, r, deliver_loop), earlier attempt o e x, rw left (omega (arith, t)))

  deliver_loop-total :
      (rounds attempt delay waited : ℕ)
      → attempt ≤ policy.max_attempts
      → policy.max_attempts < attempt + rounds
      → Told rounds attempt delay waited
  deliver_loop-total zero attempt delay waited b h = absurd (omega arith)
  deliver_loop-total (suc rounds) attempt delay waited b h =
      elim (post-cases (post_once (answer attempt))) [
        | inl e ↦ on_accepted rounds attempt delay waited b e
        | inr (inl e) ↦ on_permanent rounds attempt delay waited b e
        | inr (inr e) ↦ elim (Bool-cases (leb policy.max_attempts attempt || aborts attempt)) [
          | inl s ↦ on_given_up rounds attempt delay waited b e s
          | inr s ↦ on_retry rounds attempt delay waited e s (under s) (
              deliver_loop-total rounds (attempt + 1) (min (delay * 2) policy.max_delay)
                (waited + delay) (under s) (omega arith))
        ]
      ]
    where
      under :
          (leb policy.max_attempts attempt || aborts attempt) ≡ false
          → attempt + 1 ≤ policy.max_attempts
      under s = ground arith

  -- A delivery with as many rounds as the policy has attempts ends. It made at least one attempt
  -- and no more than the policy allows; each attempt before the last met a retryable failure; it
  -- reports success exactly if the last attempt was accepted; where the last attempt was retryable,
  -- the attempts were used up or the wait behind it was aborted; and it waited no longer than the
  -- delays of all the policy's attempts but the last.
  pub deliver_total :
      (rounds : ℕ)
      → 1 ≤ policy.max_attempts
      → policy.max_attempts ≤ rounds
      → (o : Outcome) × (deliver policy answer aborts rounds ≡ some o)
        × Explains policy answer aborts 1 o
        × (o.waited ≤ delays policy.max_delay (policy.max_attempts - 1) policy.base_delay)
  unfolding deliver
  deliver_total rounds b h =
      let (o, r, x, t) = deliver_loop-total rounds 1 policy.base_delay 0 b (omega arith) in
      (o, r, x, omega (arith, t))

-- With the default policy a delivery ends within 28 seconds, in milliseconds: the delays between the
-- attempts, together with the time limit of each attempt made.
pub deliver_worst_case :
    (answer : ℕ → Response) (aborts : ℕ → Bool)
    → (o : Outcome) × (deliver default_retry_policy answer aborts default_retry_policy.max_attempts
        ≡ some o)
      × (o.waited + o.attempts * default_retry_policy.per_attempt ≤ 28000)
deliver_worst_case answer aborts =
    let (o, r, x, t) =
      deliver_total default_retry_policy answer aborts default_retry_policy.max_attempts
        (omega arith) (omega arith) in
    let most = x.within in (o, r, omega (arith, t, most))
