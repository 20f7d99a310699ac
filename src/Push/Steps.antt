-- ===== src/Push/Steps.antt =====
-- internal/agent/push.go: what one step of the sender or of a worker does to the jobs held.
use a2abridge.Prelude.{
  if◌then◌else◌, Option-cases, Text, text_eq, text_eq_refl, ◌≡◌, refl, sym, ap, ◌∙◌, inl, inr, Bool,
  true, false, ◌&&◌, Option, none, some, List, [], ◌∷◌, ◌++◌, append_assoc, append-nil, arith,
}
use a2abridge.Push.Defs.{
  Job, Phase, selecting, delivering, retiring, Worker, Sender, fresh_worker, offer, offer_found,
  send_push, retire, take_job, finish_job, worker_step, run_worker,
}

abbrev pub finished_job : Option Worker → List Job
finished_job none = []
finished_job (some w) = elim w.phase [ selecting ↦ [] | delivering j ↦ j ∷ [] | retiring ↦ [] ]

abbrev pub same : Text → Text → Text → Text → Bool
same t c t' c' = text_eq t t' && text_eq c c'

abbrev pub accept_job : Option Job → Bool → List Job
accept_job none b = []
accept_job (some j) b = if b then j ∷ [] else []

-- The jobs that a worker still has, the one in delivery first.
abbrev pub held : Option Worker → List Job
held none = []
held (some w) = finished_job (some w) ++ w.queue

offer-at :
    (t c : Text) (j : Job) (w : Worker) (s : Sender)
    → held ((offer t c j w s).0.workers t c)
      ≡ held (some w) ++ accept_job (some j) (offer t c j w s).1
unfolding offer
offer-at t c j w s = ground (
  arith,
  text_eq_refl t,
  text_eq_refl c,
  append_assoc (finished_job (some w)) w.queue (j ∷ []),
  append-nil (held (some w)),
)

offer_found-at :
    (t c : Text) (j : Job) (o : Option Worker) (s : Sender)
    → held ((offer_found t c j o s).0.workers t c)
      ≡ held o ++ accept_job (some j) (offer_found t c j o s).1
unfolding offer_found
offer_found-at t c j none s = offer-at t c j fresh_worker s
offer_found-at t c j (some w) s = offer-at t c j w s

offer_found-other :
    (t c t' c' : Text) (j : Job) (o : Option Worker) (s : Sender)
    → same t c t' c' ≡ false
    → (offer_found t' c' j o s).0.workers t c ≡ s.workers t c
unfolding offer_found
offer_found-other t c t' c' j none s n = ground arith
offer_found-other t c t' c' j (some w) s n = ground arith

pub send_push-at :
    (t c : Text) (job : Option Job) (s : Sender)
    → held ((send_push t c job s).0.workers t c)
      ≡ held (s.workers t c) ++ accept_job job (send_push t c job s).1
unfolding send_push
send_push-at t c none s = sym (append-nil (held (s.workers t c)))
send_push-at t c (some j) s =
    ground (arith, append-nil (held (s.workers t c)), offer_found-at t c j (s.workers t c) s)

pub send_push-other :
    (t c t' c' : Text) (job : Option Job) (s : Sender)
    → same t c t' c' ≡ false
    → (send_push t' c' job s).0.workers t c ≡ s.workers t c
unfolding send_push
send_push-other t c t' c' none s n = refl
send_push-other t c t' c' (some j) s n =
    ground (arith, offer_found-other t c t' c' j (s.workers t' c') s)

retire-at :
    (t c : Text) (w : Worker) (s : Sender)
    → finished_job (some w) ≡ []
    → held (some w) ≡ held ((retire t c w s).workers t c)
unfolding retire
retire-at t c w s p = ground (arith, p, text_eq_refl t, text_eq_refl c)

take_job-at :
    (t c : Text) (w : Worker) (s : Sender)
    → finished_job (some w) ≡ []
    → s.workers t c ≡ some w
    → held (some w) ≡ held ((take_job t c w s).workers t c)
unfolding take_job
take_job-at t c w s p h = ground (arith, p, h, text_eq_refl t, text_eq_refl c)

finish_job-at :
    (delivered : Bool) (t c : Text) (j : Job) (w : Worker) (s : Sender)
    → held ((finish_job delivered t c j w s).workers t c) ≡ w.queue
unfolding finish_job
finish_job-at delivered t c j w s = ground (arith, text_eq_refl t, text_eq_refl c)

-- What a step of the worker takes from the held jobs is what it finishes.
worker_step-at :
    (timer delivered : Bool) (t c : Text) (w : Worker) (p : Phase) (s : Sender)
    → w.phase ≡ p
    → s.workers t c ≡ some w
    → held (some w)
      ≡ finished_job (some w) ++ held ((worker_step timer delivered t c w p s).workers t c)
unfolding worker_step
worker_step-at true delivered t c w selecting s e h = ground (arith, e, retire-at t c w s)
worker_step-at false delivered t c w selecting s e h = ground (arith, e, take_job-at t c w s)
worker_step-at timer delivered t c w (delivering j) s e h =
    ground (arith, e, finish_job-at delivered t c j w s)
worker_step-at timer delivered t c w retiring s e h = ground (arith, e, retire-at t c w s)

run_worker-none :
    (timer delivered : Bool) (t c : Text) (s : Sender)
    → s.workers t c ≡ none
    → run_worker timer delivered t c s ≡ s
unfolding run_worker
run_worker-none timer delivered t c s e = rw (e, run_worker)

run_worker-some :
    (timer delivered : Bool) (t c : Text) (w : Worker) (s : Sender)
    → s.workers t c ≡ some w
    → run_worker timer delivered t c s ≡ worker_step timer delivered t c w w.phase s
unfolding run_worker
run_worker-some timer delivered t c w s e = rw (e, run_worker)

pub run_worker-at :
    (timer delivered : Bool) (t c : Text) (s : Sender)
    → held (s.workers t c)
      ≡ finished_job (s.workers t c) ++ held ((run_worker timer delivered t c s).workers t c)
run_worker-at timer delivered t c s = elim (Option-cases (s.workers t c)) [
  | inl e ↦
      ap held e
      ∙ ap (λ (o : Option Worker). finished_job o ++ held o) (sym e)
      ∙ ap (λ (z : Sender). finished_job (s.workers t c) ++ held (z.workers t c))
          (sym (run_worker-none timer delivered t c s e))
  | inr (w, e) ↦
      let z = run_worker timer delivered t c s in
      ap held e
      ∙ worker_step-at timer delivered t c w w.phase s refl e
      ∙ ap (λ (z : Sender). finished_job (some w) ++ held (z.workers t c))
          (sym (run_worker-some timer delivered t c w s e))
      ∙ ap (λ (o : Option Worker). finished_job o ++ held (z.workers t c)) (sym e)
]

worker_step-other :
    (timer delivered : Bool) (t c t' c' : Text) (w : Worker) (p : Phase) (s : Sender)
    → same t c t' c' ≡ false
    → (worker_step timer delivered t' c' w p s).workers t c ≡ s.workers t c
unfolding worker_step take_job finish_job retire
worker_step-other timer delivered t c t' c' w selecting s n = ground arith
worker_step-other timer delivered t c t' c' w (delivering j) s n = ground arith
worker_step-other timer delivered t c t' c' w retiring s n = ground arith

pub run_worker-other :
    (timer delivered : Bool) (t c t' c' : Text) (s : Sender)
    → same t c t' c' ≡ false
    → (run_worker timer delivered t' c' s).workers t c ≡ s.workers t c
run_worker-other timer delivered t c t' c' s n = elim (Option-cases (s.workers t' c')) [
  | inl e ↦ ap (λ (z : Sender). z.workers t c) (run_worker-none timer delivered t' c' s e)
  | inr (w, e) ↦
      ap (λ (z : Sender). z.workers t c) (run_worker-some timer delivered t' c' w s e)
      ∙ worker_step-other timer delivered t c t' c' w w.phase s n
]
