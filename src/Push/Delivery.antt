-- ===== src/Push/Delivery.antt =====
-- internal/agent/push.go: one delivery with its retries, and what a POST counts as.
use a2abridge.Prelude.{
  ltb, leb, if◌then◌else◌, length, Text, codes, text_eq, ℕ, zero, suc, ◌+◌, ◌*◌, min, Bool, true,
  false, ◌&&◌, ◌||◌, Option, none, some, List, [], ◌∷◌, ◌++◌,
}

-- time.Duration in milliseconds
pub record RetryPolicy : Type 0 where
  pub max_attempts : ℕ
  pub base_delay : ℕ
  pub max_delay : ℕ
  pub per_attempt : ℕ

abbrev pub default_retry_policy : RetryPolicy
default_retry_policy = record {
  max_attempts = 5;
  base_delay = 200;
  max_delay = 3200;
  per_attempt = 5000;
}

-- What became of one request: it could not be built, `client.Do` failed (at a blocked target, or
-- otherwise, with the delivery's context done or not), or a status code came back.
pub data Response : Type 0 where
  not_built : Response
  blocked : Response
  failed : Bool → Response
  responded : ℕ → Response

pub data Post : Type 0 where
  accepted retryable permanent : Post

unfoldable pub post_once : Response → Post
post_once not_built = permanent
post_once blocked = permanent
post_once (failed done) = if done then permanent else retryable
post_once (responded code) =
    if leb 200 code && ltb code 300 then accepted else if leb 500 code then retryable else permanent

pub record Outcome : Type 0 where
  pub delivered : Bool
  pub attempts : ℕ
  pub waited : ℕ  -- the delays between the attempts, together

-- `answer k` is the response to attempt k; `aborts k` says that the context is done during the
-- wait behind it. None is a loop that runs out of rounds.
unfoldable pub deliver_loop :
    RetryPolicy → (ℕ → Response) → (ℕ → Bool) → ℕ → ℕ → ℕ → ℕ → Option Outcome
unfolding post_once
deliver_loop policy answer aborts zero attempt delay waited = none
deliver_loop policy answer aborts (suc rounds) attempt delay waited =
    let again =
      deliver_loop policy answer aborts rounds (attempt + 1) (min (delay * 2) policy.max_delay)
        (waited + delay) in
    elim (post_once (answer attempt)) [
      | accepted ↦ some (record { delivered = true; attempts = attempt; waited = waited })
      | permanent ↦ some (record { delivered = false; attempts = attempt; waited = waited })
      | retryable ↦
          if leb policy.max_attempts attempt || aborts attempt
          then some (record { delivered = false; attempts = attempt; waited = waited })
          else again
    ]

unfoldable pub deliver : RetryPolicy → (ℕ → Response) → (ℕ → Bool) → ℕ → Option Outcome
unfolding deliver_loop
deliver policy answer aborts rounds = deliver_loop policy answer aborts rounds 1 policy.base_delay 0

-- The Authorization header of a config with credentials, by the scheme in lower case.
unfoldable pub auth_header : Text → Text → Option Text
auth_header scheme credentials =
    if text_eq credentials []
    then none
    else if text_eq scheme (codes "bearer")
    then some (codes "Bearer " ++ credentials)
    else if text_eq scheme (codes "basic")
    then some (codes "Basic " ++ credentials)
    else none

-- limitPushRedirects: none refuses the hop, otherwise whether the notification token stays. `via`
-- holds the hosts of the requests so far, the last first.
unfoldable pub limit_push_redirects : Text → List Text → Option Bool
limit_push_redirects host via =
    if leb 10 (length via)
    then none
    else some (elim via [ [] ↦ true | last ∷ before ↦ text_eq host last ])
