-- ===== src/Store/Concurrent.antt =====
-- internal/agent/store.go: PollOutgoing, IngestOutgoingTerminal and TrackOutgoing on several
-- goroutines. A goroutine that took a task out of the map holds it, with the reply, until its next
-- critical section appends the entry; other goroutines run in between.
use a2abridge.Prelude.{
  if◌then◌else◌, Text, text_eq, text_eq_iff, lookup, delete, lookup-insert, lookup-delete,
  lookup-nil, ℕ, suc, ◌+◌, ◌≤◌, ◌≡◌, refl, Bool, true, Option, none, some, List, [], ◌∷◌, ◌++◌, map,
  arith,
}
use a2abridge.Store.Entry.{PendingOutgoingTask, Store, Env, WriteResult}
use a2abridge.Store.Outgoing.{new_pending, append_synthetic_reply, track_outgoing, claim}

-- A claimed task on its way to the inbox.
pub record Flight : Type 0 where
  pub pending : PendingOutgoingTask
  pub reply : Text
  pub state : Text

-- The store, the replies on their way, and two histories: the ids given to TrackOutgoing, and the
-- ids for which appendSyntheticReply was called.
pub record System : Type 0 where
  pub store : Store
  pub flights : List Flight
  pub tracked : List Text
  pub replied : List Text

abbrev pub count : Text → List Text → ℕ
count id [] = 0
count id (x ∷ xs) = let rest = count id xs in if text_eq x id then suc rest else rest

abbrev pub flight_ids : List Flight → List Text
flight_ids = map (λ f. f.pending.task_id)

module _ (env : Env) (terminal : Text → Bool) where
  -- One critical section of one goroutine. PollOutgoing's claim carries the task that it copied
  -- from the map earlier, so `claims` lets it differ from what the map holds now; the section that
  -- gives up an old task is `expires`. Any other section of the store leaves the map alone.
  pub data Section : System → System → Type 0 where
    tracks :
        (y : System) (now : ℕ) (id url name question : Text)
        → Section y (record y {
          store = track_outgoing env now id url name question y.store;
          tracked = id ∷ y.tracked;
        })
    claims :
        (y : System) (p q : PendingOutgoingTask) (s' : Store) (reply state : Text)
        → claim env p.task_id y.store ≡ some (q, s')
        → terminal state ≡ true
        → Section y (record y {
          store = s';
          flights = record { pending = p; reply = reply; state = state } ∷ y.flights;
        })
    expires :
        (y : System) (id : Text)
        → Section y (record y {
          store = record y.store { pending_outgoing = delete id y.store.pending_outgoing };
        })
    appends :
        (y : System) (before after : List Flight) (f : Flight) (w : WriteResult) (now : ℕ)
        → y.flights ≡ before ++ f ∷ after
        → Section y (record y {
          store = append_synthetic_reply env w now f.pending f.reply f.state y.store;
          flights = before ++ after;
          replied = f.pending.task_id ∷ y.replied;
        })
    others :
        (y : System) (s' : Store)
        → s'.pending_outgoing ≡ y.store.pending_outgoing
        → Section y (record y { store = s' })

  pub data Reach (y : System) : System → Type 0 where
    here : Reach y y
    next : {z u : System} → Reach y z → Section z u → Reach y u

abbrev pub one_if {ℓ} : {A : Type ℓ} → Option A → ℕ
one_if none = 0
one_if (some a) = 1

-- What was tracked accounts for what is pending, on its way or delivered.
abbrev pub Accounted : System → Type 0
Accounted y =
    (id : Text)
    → one_if (lookup id y.store.pending_outgoing)
        + count id (flight_ids y.flights)
        + count id y.replied
      ≤ count id y.tracked

count-flights :
    (id : Text) (before after : List Flight) (f : Flight)
    → count id (flight_ids (before ++ f ∷ after))
      ≡ count id (f.pending.task_id ∷ flight_ids (before ++ after))
count-flights id [] after f = refl
count-flights id (g ∷ before) after f = ground (arith, count-flights id before after f)

module _ (env : Env) (terminal : Text → Bool) where
  pending-reply :
      (w : WriteResult) (now : ℕ) (p : PendingOutgoingTask) (reply state : Text) (s : Store)
      → (append_synthetic_reply env w now p reply state s).pending_outgoing ≡ s.pending_outgoing
  unfolding append_synthetic_reply
  pending-reply w now p reply state s = ground arith

  Section-Accounted : {y z : System} → Section env terminal y z → Accounted y → Accounted z
  Section-Accounted (tracks y now id url name question) h j =
      unfold track_outgoing in
      ground (
        arith,
        h j,
        lookup-insert id j (new_pending now id url name question) y.store.pending_outgoing,
      )
  Section-Accounted (claims y p q s' reply state c t) h j =
      unfold claim in
      ground
        (arith, c, h j, lookup-delete p.task_id j y.store.pending_outgoing, text_eq_iff p.task_id j)
  Section-Accounted (expires y id) h j =
      ground (arith, h j, lookup-delete id j y.store.pending_outgoing)
  Section-Accounted (appends y before after f w now e) h j = ground (
    arith,
    h j,
    e,
    count-flights j before after f,
    pending-reply w now f.pending f.reply f.state y.store,
  )
  Section-Accounted (others y s' e) h j = ground (arith, h j, e)

  Reach-Accounted : {y z : System} → Accounted y → Reach env terminal y z → Accounted z
  Reach-Accounted h here = h
  Reach-Accounted h (next r st) = Section-Accounted st (Reach-Accounted h r)

  -- However the critical sections of the poll, the subscriptions and the senders interleave, from a
  -- store with no pending task: for each task id, the replies that are handed to the inbox or on
  -- their way, and the pending entry, are together at most as many as the calls of TrackOutgoing
  -- for the id. So a task that was tracked once gets at most one reply.
  pub at_most_once :
      (s : Store) (z : System) (id : Text)
      → s.pending_outgoing ≡ []
      → Reach env terminal (record { store = s; flights = []; tracked = []; replied = [] }) z
      → one_if (lookup id z.store.pending_outgoing)
          + count id (flight_ids z.flights)
          + count id z.replied
        ≤ count id z.tracked
  at_most_once s z id e r =
      Reach-Accounted (λ j. rw e (ground (arith, lookup-nil {V = PendingOutgoingTask} j))) r id
