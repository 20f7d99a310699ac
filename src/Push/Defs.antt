-- ===== src/Push/Defs.antt =====
-- internal/agent/push.go: PushSender, one worker goroutine to a webhook registration. The state is
-- what the sender's mutex guards, with the channels and the workers' program points.
use a2abridge.Prelude.{
  ltb, if◌then◌else◌, length, Text, text_eq, ℕ, Bool, true, false, ◌&&◌, Option, none, some, List,
  [], ◌∷◌, ◌++◌,
}
use a2abridge.Metrics.{Metrics, inc_push_delivered, inc_push_failed}

abbrev pub push_queue_size : ℕ
push_queue_size = 64

pub record Job : Type 0 where
  pub config : Text  -- the copied a2a.PushConfig
  pub body : Text
  pub terminal : Bool

-- Where a worker's goroutine stands: at its select, delivering a job, or at the `retire` that
-- follows a terminal job.
pub data Phase : Type 0 where
  selecting : Phase
  delivering : Job → Phase
  retiring : Phase

pub record Worker : Type 0 where
  pub queue : List Job
  pub shut : Bool  -- the channel is closed
  pub phase : Phase

-- `workers` is the map by task id and config id. A worker that has retired is not in it.
pub record Sender : Type 0 where
  pub queue_size : ℕ
  pub closed : Bool
  pub workers : Text → Text → Option Worker
  pub metrics : Metrics

abbrev pub set_worker : Text → Text → Option Worker → Sender → Sender
set_worker task config w s = record s {
  workers = λ t c. if text_eq t task && text_eq c config then w else s.workers t c;
}

abbrev pub fresh_worker : Worker
fresh_worker = record { queue = []; shut = false; phase = selecting }

-- The non-blocking send on a channel of capacity `queue_size`; the flag says that it was taken.
unfoldable pub offer : Text → Text → Job → Worker → Sender → Sender × Bool
unfolding inc_push_failed
offer task config job w s =
    if ltb (length w.queue) s.queue_size
    then (set_worker task config (some (record w { queue = w.queue ++ job ∷ [] })) s, true)
    else (set_worker task config (some w) (record s { metrics = inc_push_failed s.metrics }), false)

unfoldable pub offer_found : Text → Text → Job → Option Worker → Sender → Sender × Bool
unfolding offer
offer_found task config job none s = offer task config job fresh_worker s
offer_found task config job (some w) s = offer task config job w s

-- SendPush behind its check for a nil config; none is an event that did not encode.
unfoldable pub send_push : Text → Text → Option Job → Sender → Sender × Bool
unfolding offer_found inc_push_failed
send_push task config none s = (record s { metrics = inc_push_failed s.metrics }, false)
send_push task config (some job) s =
    if s.closed
    then (record s { metrics = inc_push_failed s.metrics }, false)
    else offer_found task config job (s.workers task config) s

-- The critical section of Close; closing twice does nothing.
unfoldable pub close : Sender → Sender
close s = if s.closed then s else record s {
  closed = true;
  workers = λ t c. elim (s.workers t c) [ none ↦ none | some w ↦ some (record w { shut = true }) ];
}

-- `retire`: the worker goes if nothing is queued for it, and selects again otherwise.
unfoldable pub retire : Text → Text → Worker → Sender → Sender
retire task config w s = elim w.queue [
  | [] ↦ set_worker task config none s
  | j ∷ js ↦ set_worker task config (some (record w { phase = selecting })) s
]

-- One step of a worker. At its select it takes the next job, or, where the channel is closed and
-- empty, retires; an idle timer that fires lets it try to retire too.
unfoldable pub take_job : Text → Text → Worker → Sender → Sender
unfolding retire
take_job task config w s = elim w.queue [
  | [] ↦ if w.shut then retire task config w s else s
  | j ∷ js ↦ set_worker task config (some (record w { queue = js; phase = delivering j })) s
]

-- deliverJob: `delivered` says that the delivery succeeded.
unfoldable pub finish_job : Bool → Text → Text → Job → Worker → Sender → Sender
unfolding inc_push_failed inc_push_delivered
finish_job delivered task config job w s =
    let m = if delivered then inc_push_delivered s.metrics else inc_push_failed s.metrics in
    set_worker task config
      (some (record w { phase = if job.terminal then retiring else selecting }))
      (record s { metrics = m })

unfoldable pub worker_step : Bool → Bool → Text → Text → Worker → Phase → Sender → Sender
unfolding take_job finish_job retire
worker_step timer delivered task config w selecting s =
    if timer then retire task config w s else take_job task config w s
worker_step timer delivered task config w (delivering job) s =
    finish_job delivered task config job w s
worker_step timer delivered task config w retiring s = retire task config w s

-- The next step of the worker of a registration, if there is one: `timer` is the choice of the idle
-- timer at a select, `delivered` the outcome of a delivery.
unfoldable pub run_worker : Bool → Bool → Text → Text → Sender → Sender
unfolding worker_step
run_worker timer delivered task config s = elim (s.workers task config) [
  | none ↦ s
  | some w ↦ worker_step timer delivered task config w w.phase s
]
