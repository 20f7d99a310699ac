-- ===== src/Push/Fifo.antt =====
-- internal/agent/push.go: every accepted event is delivered once, in order, per registration.
use a2abridge.Prelude.{
  if◌then◌else◌, Bool-cases, Text, text_eq_iff, ◌≡◌, sym, ap, ◌∙◌, inl, inr, Bool, Option, List, [],
  ◌∷◌, ◌++◌, append_assoc, append-nil, arith,
}
use a2abridge.Push.Steps.{
  finished_job, same, accept_job, held, send_push-at, send_push-other, run_worker-at,
  run_worker-other,
}
use a2abridge.Push.Defs.{Job, Sender, send_push, close, run_worker}

pub data Action : Type 0 where
  sends : Text → Text → Option Job → Action
  closes : Action
  works : Bool → Bool → Text → Text → Action

-- The sender with two histories of one registration: the jobs that SendPush queued for it, and
-- those whose delivery has ended.
pub record System : Type 0 where
  pub sender : Sender
  pub accepted : List Job
  pub delivered : List Job

-- `t` and `c` name the registration that the histories follow.
pub act : Text → Text → Action → System → System
act t c (sends t' c' job) y =
    let (s, taken) = send_push t' c' job y.sender in
    record y {
      sender = s;
      accepted = y.accepted ++ (if same t c t' c' then accept_job job taken else []);
    }
act t c closes y = record y { sender = close y.sender }
act t c (works timer delivered t' c') y = record y {
  sender = run_worker timer delivered t' c' y.sender;
  delivered = y.delivered ++ (if same t c t' c' then finished_job (y.sender.workers t c) else []);
}

pub act_all : Text → Text → List Action → System → System
act_all t c [] y = y
act_all t c (a ∷ l) y = act_all t c l (act t c a y)

abbrev pub InOrder : Text → Text → System → Type 0
InOrder t c y = y.accepted ≡ y.delivered ++ held (y.sender.workers t c)

sends-InOrder :
    (t c t' c' : Text) (job : Option Job) (y : System)
    → InOrder t c y
    → InOrder t c (act t c (sends t' c' job) y)
unfolding act
sends-InOrder t c t' c' job y h = elim (Bool-cases (same t c t' c')) [
  | inr other ↦ rw (other, send_push-other t c t' c' job y.sender other) (append-nil y.accepted ∙ h)
  | inl this ↦
      let e : t ≡ t' = ground (arith, this, text_eq_iff t t') in
      let f : c ≡ c' = ground (arith, this, text_eq_iff c c') in
      rw (this, ← e, ← f)
        (rw (send_push-at t c job y.sender) (
          ap (λ l. l ++ accept_job job (send_push t c job y.sender).1) h
          ∙ append_assoc y.delivered (held (y.sender.workers t c))
              (accept_job job (send_push t c job y.sender).1)))
]

closes-InOrder : (t c : Text) (y : System) → InOrder t c y → InOrder t c (act t c closes y)
unfolding act close
closes-InOrder t c y h = ground arith

works-InOrder :
    (timer delivered : Bool) (t c t' c' : Text) (y : System)
    → InOrder t c y
    → InOrder t c (act t c (works timer delivered t' c') y)
unfolding act
works-InOrder timer delivered t c t' c' y h = elim (Bool-cases (same t c t' c')) [
  | inr other ↦
      rw (other, run_worker-other timer delivered t c t' c' y.sender other)
        (rw (append-nil y.delivered) h)
  | inl this ↦
      let e : t ≡ t' = ground (arith, this, text_eq_iff t t') in
      let f : c ≡ c' = ground (arith, this, text_eq_iff c c') in
      rw (this, ← e, ← f)
        (h
          ∙ ap (◌++◌ y.delivered) (run_worker-at timer delivered t c y.sender)
          ∙ sym (
              append_assoc y.delivered (finished_job (y.sender.workers t c))
                (held ((run_worker timer delivered t c y.sender).workers t c))))
]

act-InOrder : (t c : Text) (a : Action) (y : System) → InOrder t c y → InOrder t c (act t c a y)
act-InOrder t c (sends t' c' job) y h = sends-InOrder t c t' c' job y h
act-InOrder t c closes y h = closes-InOrder t c y h
act-InOrder t c (works timer delivered t' c') y h = works-InOrder timer delivered t c t' c' y h

-- Each registration's events are delivered once and in order. However calls of SendPush, Close and
-- the steps of the workers of all registrations interleave, the jobs that SendPush queued for a
-- registration are those whose delivery has ended, in the same order, followed by the one that its
-- worker is delivering and those that are queued: none is lost, duplicated or overtaken, also when
-- a worker retires and another takes its place.
pub act_all-InOrder :
    (t c : Text) (l : List Action) (y : System) → InOrder t c y → InOrder t c (act_all t c l y)
unfolding act_all
act_all-InOrder t c [] y h = h
act_all-InOrder t c (a ∷ l) y h = act_all-InOrder t c l (act t c a y) (act-InOrder t c a y h)
