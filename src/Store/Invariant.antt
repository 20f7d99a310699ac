-- ===== src/Store/Invariant.antt =====
-- internal/agent/store.go: what holds of the store between two calls.
use a2abridge.Store.Step.{
  Op, deliver, evict, drain, peek, drop_task, load, track, ingest, poll, step, run,
}
use a2abridge.A2a.{Task}
use a2abridge.Prelude.{
  ltb, Bool-cases, Option-cases, length, length-filter-le, Text, text_eq, Map, insert, delete, ℕ,
  ◌+◌, ◌≤◌, ◌≡◌, refl, inl, inr, Bool, not, Option, none, some, List, [], ◌∷◌, map, arith,
}
use a2abridge.Store.Entry.{
  inbox_soft_cap, InboxEntry, has_reply_id, SnapshotEntry, of_snapshot, PendingOutgoingTask, Store,
  Env, WriteResult,
}
use a2abridge.Store.Inbox.{
  append_inbox, append_all, restore, deliver_incoming, is_expired_reply, keep_entries,
  evict_expired_replies, drain_inbox, peek_inbox, drop_task_entries, load_file, load_inbox,
}
use a2abridge.Store.Outgoing.{
  extract_reply_text, Round, synthetic_entry, append_synthetic_reply, track_outgoing, claim,
  ingest_outgoing_terminal, poll_fetched, poll_one, poll_all, poll_outgoing,
}
use a2abridge.Store.Unique.{
  UniqueIds, filter-UniqueIds, append_inbox-UniqueIds, append_inbox-bounded,
}

-- Every pending task is stored under its own id.
abbrev pub Keyed : Map PendingOutgoingTask → Type 0
Keyed [] = Unit
Keyed ((k, p) ∷ m) = (p.task_id ≡ k) × Keyed m

pub record IsWellFormed (s : Store) : Type 0 where
  pub unique : UniqueIds s.inbox
  pub bounded : length s.inbox ≤ inbox_soft_cap
  pub keyed : Keyed s.pending_outgoing

insert-Keyed :
    (k : Text) (p : PendingOutgoingTask) (m : Map PendingOutgoingTask)
    → p.task_id ≡ k
    → Keyed m
    → Keyed (insert k p m)
unfolding insert
insert-Keyed k p [] e h = (e, tt)
insert-Keyed k p ((j, q) ∷ m) e h = ground (arith, insert-Keyed k p m e h.1)

delete-Keyed : (k : Text) (m : Map PendingOutgoingTask) → Keyed m → Keyed (delete k m)
unfolding delete
delete-Keyed k [] h = tt
delete-Keyed k ((j, q) ∷ m) h = ground (arith, delete-Keyed k m h.1)

append_all-IsWellFormed :
    (es : List SnapshotEntry) (l : List InboxEntry)
    → UniqueIds l
    → length l ≤ inbox_soft_cap
    → UniqueIds (append_all es l) × (length (append_all es l) ≤ inbox_soft_cap)
unfolding append_all
append_all-IsWellFormed [] l u b = (u, b)
append_all-IsWellFormed (e ∷ es) l u b =
    append_all-IsWellFormed es (append_inbox (of_snapshot e) l).0
      (append_inbox-UniqueIds (of_snapshot e) l u) (append_inbox-bounded (of_snapshot e) l b)

restore-IsWellFormed :
    (o : Option (List SnapshotEntry)) (s : Store) → IsWellFormed s → IsWellFormed (restore o s)
unfolding restore
restore-IsWellFormed none s v = v
restore-IsWellFormed (some snap) s v =
    let (u, b) = append_all-IsWellFormed snap s.inbox v.unique v.bounded in
    record { unique = u; bounded = b; keyed = v.keyed }

module _ (env : Env) where
  keep_entries-IsWellFormed :
      (w : WriteResult) (keep : InboxEntry → Bool) (s : Store)
      → IsWellFormed s
      → IsWellFormed (keep_entries env w keep s)
  unfolding keep_entries
  keep_entries-IsWellFormed w keep s v =
      ground (arith, filter-UniqueIds keep s.inbox v.unique, length-filter-le keep s.inbox)

  deliver-IsWellFormed :
      (w : WriteResult) (e : InboxEntry) (s : Store)
      → IsWellFormed s
      → IsWellFormed (deliver_incoming env w e s).0
  unfolding deliver_incoming
  deliver-IsWellFormed w e s v =
      unfold append_inbox in
      ground (arith, append_inbox-UniqueIds e s.inbox v.unique, append_inbox-bounded e s.inbox)

  load_file-IsWellFormed :
      (f : Option Text) (s : Store) → IsWellFormed s → IsWellFormed (load_file env f s)
  unfolding load_file
  load_file-IsWellFormed none s v = v
  load_file-IsWellFormed (some []) s v = v
  load_file-IsWellFormed (some (c ∷ b)) s v = restore-IsWellFormed (env.decode (c ∷ b)) s v

  load-IsWellFormed :
      (readable : Bool) (s : Store) → IsWellFormed s → IsWellFormed (load_inbox env readable s)
  unfolding load_inbox
  load-IsWellFormed readable s v =
      let loaded = load_file-IsWellFormed s.snapshot s v in
      elim (Bool-cases (text_eq s.inbox_path [])) [
        | inl e ↦ rw e v
        | inr e ↦ rw e (elim (Bool-cases readable) [ inl r ↦ rw r loaded | inr r ↦ rw r v ])
      ]

  reply-IsWellFormed :
      (w : WriteResult) (now : ℕ) (p : PendingOutgoingTask) (reply state : Text) (s : Store)
      → IsWellFormed s
      → IsWellFormed (append_synthetic_reply env w now p reply state s)
  unfolding append_synthetic_reply
  reply-IsWellFormed w now p reply state s v =
      let e = synthetic_entry env now p reply state in
      ground (arith, append_inbox-UniqueIds e s.inbox v.unique, append_inbox-bounded e s.inbox)

  claim-IsWellFormed :
      (id : Text) (s : Store) (p : PendingOutgoingTask) (s' : Store)
      → claim env id s ≡ some (p, s')
      → IsWellFormed s
      → IsWellFormed s'
  unfolding claim
  claim-IsWellFormed id s p s' e v = ground (arith, delete-Keyed id s.pending_outgoing v.keyed)

  ingest-IsWellFormed :
      (terminal : Text → Bool) (w : WriteResult) (now : ℕ) (t : Option Task) (s : Store)
      → IsWellFormed s
      → IsWellFormed (ingest_outgoing_terminal env terminal w now t s).0
  unfolding ingest_outgoing_terminal
  ingest-IsWellFormed terminal w now none s v = v
  ingest-IsWellFormed terminal w now (some t) s v = elim (Bool-cases (terminal t.status.state)) [
    | inr e ↦ rw e v
    | inl e ↦ rw e (elim (Option-cases (claim env t.id s)) [
      | inl c ↦ rw c v
      | inr ((p, s'), c) ↦ rw c (
          reply-IsWellFormed w now p (extract_reply_text t) t.status.state s'
            (claim-IsWellFormed t.id s p s' c v))
    ])
  ]

  poll_fetched-IsWellFormed :
      (terminal : Text → Bool) (r : Round) (p : PendingOutgoingTask) (f : Option (Option Task))
      (s : Store)
      → IsWellFormed s
      → IsWellFormed (poll_fetched env terminal r p f s).0
  unfolding poll_fetched
  poll_fetched-IsWellFormed terminal r p none s v = v
  poll_fetched-IsWellFormed terminal r p (some none) s v = v
  poll_fetched-IsWellFormed terminal r p (some (some t)) s v =
      elim (Bool-cases (terminal t.status.state)) [
        | inr e ↦ rw e v
        | inl e ↦ rw e (elim (Option-cases (claim env p.task_id s)) [
          | inl c ↦ rw c v
          | inr ((q, s'), c) ↦ rw c (
              reply-IsWellFormed r.write r.replied_at p (extract_reply_text t) t.status.state s'
                (claim-IsWellFormed p.task_id s q s' c v))
        ])
      ]

  poll_one-IsWellFormed :
      (terminal : Text → Bool) (max_age : ℕ) (r : Round) (p : PendingOutgoingTask) (s : Store)
      → IsWellFormed s
      → IsWellFormed (poll_one env terminal max_age r p s).0
  unfolding poll_one
  poll_one-IsWellFormed terminal max_age r p s v =
      elim (Bool-cases (ltb (p.sent_at + max_age) r.at)) [
        | inl e ↦ rw e (record {
          unique = v.unique;
          bounded = v.bounded;
          keyed = delete-Keyed p.task_id s.pending_outgoing v.keyed;
        })
        | inr e ↦ rw e (poll_fetched-IsWellFormed terminal r p r.fetched s v)
      ]

  poll_all-IsWellFormed :
      (terminal : Text → Bool) (max_age : ℕ) (rounds : PendingOutgoingTask → Round)
      (ps : List PendingOutgoingTask) (s : Store)
      → IsWellFormed s
      → IsWellFormed (poll_all env terminal max_age rounds ps s).0
  unfolding poll_all
  poll_all-IsWellFormed terminal max_age rounds [] s v = v
  poll_all-IsWellFormed terminal max_age rounds (p ∷ ps) s v =
      poll_all-IsWellFormed terminal max_age rounds ps
        (poll_one env terminal max_age (rounds p) p s).0
        (poll_one-IsWellFormed terminal max_age (rounds p) p s v)

module _ (env : Env) (terminal : Text → Bool) where
  step-IsWellFormed : (op : Op) (s : Store) → IsWellFormed s → IsWellFormed (step env terminal op s)
  unfolding step
  step-IsWellFormed (deliver w e) s v = deliver-IsWellFormed env w e s v
  step-IsWellFormed (evict w now) s v =
      unfold evict_expired_replies in
      keep_entries-IsWellFormed env w (λ e. not (is_expired_reply env now e)) s v
  step-IsWellFormed (drain w) s v = unfold drain_inbox in ground (arith, v.keyed)
  step-IsWellFormed (peek w) s v =
      unfold peek_inbox in keep_entries-IsWellFormed env w (λ e. not (has_reply_id e)) s v
  step-IsWellFormed (drop_task w id) s v =
      unfold drop_task_entries in
      keep_entries-IsWellFormed env w (λ e. not (text_eq e.task_id id)) s v
  step-IsWellFormed (load readable) s v = load-IsWellFormed env readable s v
  step-IsWellFormed (track now id url name question) s v =
      unfold track_outgoing in
      record {
        unique = v.unique;
        bounded = v.bounded;
        keyed = insert-Keyed id _ s.pending_outgoing refl v.keyed;
      }
  step-IsWellFormed (ingest w now t) s v = ingest-IsWellFormed env terminal w now t s v
  step-IsWellFormed (poll max_age rounds) s v =
      unfold poll_outgoing in
      poll_all-IsWellFormed env terminal max_age rounds (map (λ kv. kv.1) s.pending_outgoing) s v

  -- From a well-formed store every sequence of calls of the store's operations (deliver, evict,
  -- drain, peek, drop, load, track, ingest and poll, with any writes that fail) leads to a
  -- well-formed store: no two inbox entries share a nonempty message id, the inbox has at most 500
  -- entries, and every pending task is filed under its own id.
  pub run-IsWellFormed :
      (ops : List Op) (s : Store) → IsWellFormed s → IsWellFormed (run env terminal ops s)
  unfolding run
  run-IsWellFormed [] s v = v
  run-IsWellFormed (op ∷ ops) s v =
      run-IsWellFormed ops (step env terminal op s) (step-IsWellFormed op s v)
