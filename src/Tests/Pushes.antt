-- ===== src/Tests/Pushes.antt =====
-- The theorems on internal/agent/push.go on concrete traffic.
use a2abridge.Prelude.{
  ltb, if◌then◌else◌, any, codes, ℕ, ◌+◌, ◌-◌, ◌*◌, ◌≤◌, ◌≡◌, refl, Bool, true, false, none, some,
  List, [], ◌∷◌, ◌++◌, arith,
}
use a2abridge.Metrics.{zeros}
use a2abridge.Push.Defs.{Job, Sender}
use a2abridge.Push.Fifo.{Action, sends, closes, works, System, act_all, InOrder, act_all-InOrder}
use a2abridge.Push.Delivery.{default_retry_policy, Response, responded, Outcome, deliver}
use a2abridge.Push.Dial.{
  v4_prefix, dials, blocked_target, guard_push_dial, address, is_within, reserved,
  guard_push_dial_lem,
}
use a2abridge.Push.Retry.{Explains, delays, deliver_total, deliver_worst_case}

abbrev job : ℕ → Bool → Job
job n terminal = record { config = codes "c1"; body = n ∷ []; terminal = terminal }

abbrev sender : Sender
sender = record { queue_size = 2; closed = false; workers = λ t c. none; metrics = zeros }

abbrev unused : System
unused = record { sender = sender; accepted = []; delivered = [] }

abbrev traffic : List Action
traffic =
    sends (codes "t1") (codes "c1") (some (job 1 false))
    ∷ sends (codes "t1") (codes "c1") (some (job 2 true))
    ∷ works false true (codes "t1") (codes "c1")
    ∷ closes
    ∷ []

act_all-InOrder_example :
    InOrder (codes "t1") (codes "c1") (act_all (codes "t1") (codes "c1") traffic unused)
act_all-InOrder_example = act_all-InOrder (codes "t1") (codes "c1") traffic unused refl

abbrev answers : ℕ → Response
answers n = if ltb n 3 then responded 503 else responded 204

deliver_total_example :
    (o : Outcome) × (deliver default_retry_policy answers (λ k. false) 5 ≡ some o)
    × Explains default_retry_policy answers (λ k. false) 1 o
    × (o.waited
        ≤ delays default_retry_policy.max_delay
            (default_retry_policy.max_attempts - 1)
            default_retry_policy.base_delay)
deliver_total_example =
    deliver_total default_retry_policy answers (λ k. false) 5 (omega arith) (omega arith)

guard_push_dial_lem_example :
    guard_push_dial
      (λ addr. some addr)
      (λ host. some (v4_prefix ++ 169 ∷ 254 ∷ 169 ∷ 254 ∷ []))
      (codes "metadata")
    ≡ (if any (is_within (address (169, 254, 169, 254))) reserved then blocked_target else dials)
guard_push_dial_lem_example =
    guard_push_dial_lem 169 254 169 254 (omega arith) (omega arith) (omega arith) (omega arith)
      (λ addr. some addr) (λ host. some (v4_prefix ++ 169 ∷ 254 ∷ 169 ∷ 254 ∷ []))
      (codes "metadata") (codes "metadata") refl refl

deliver_worst_case_example :
    (o : Outcome) × (deliver default_retry_policy answers
        (λ k. false)
        default_retry_policy.max_attempts
      ≡ some o)
    × (o.waited + o.attempts * default_retry_policy.per_attempt ≤ 28000)
deliver_worst_case_example = deliver_worst_case answers (λ k. false)
