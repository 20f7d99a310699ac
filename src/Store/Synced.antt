-- ===== src/Store/Synced.antt =====
-- internal/agent/store.go, persistInboxLocked: the snapshot file follows the inbox.
use a2abridge.Prelude.{
  ltb, Bool-cases, Option-cases, filter, Text, text_eq, ℕ, ◌+◌, ◌≡◌, ◌⊎◌, inl, inr, Bool, false,
  Option, none, some, List, [], ◌∷◌, map, arith,
}
use a2abridge.A2a.{Task}
use a2abridge.Store.Entry.{InboxEntry, to_snapshot, PendingOutgoingTask, Store, Env, written}
use a2abridge.Store.Inbox.{replace_inbox, deliver_incoming, keep_entries}
use a2abridge.Store.Outgoing.{
  extract_reply_text, Round, append_synthetic_reply, claim, ingest_outgoing_terminal, poll_fetched,
  poll_one, poll_all,
}

module _ (env : Env) where
  -- The file holds the inbox, or neither was ever written.
  pub record IsSynced (s : Store) : Type 0 where
    pub has_path : text_eq s.inbox_path [] ≡ false
    pub agrees :
        ((s.inbox ≡ []) × (s.snapshot ≡ none))
        ⊎ (s.snapshot ≡ some (env.encode (map to_snapshot s.inbox)))

  pub replace_inbox-IsSynced :
      (l : List InboxEntry) (s : Store)
      → text_eq s.inbox_path [] ≡ false
      → IsSynced (replace_inbox env written l s)
  unfolding replace_inbox
  replace_inbox-IsSynced l s h = ground arith

  pub keep_entries-IsSynced :
      (keep : InboxEntry → Bool) (s : Store)
      → IsSynced s
      → IsSynced (keep_entries env written keep s)
  unfolding keep_entries
  keep_entries-IsSynced keep s v =
      ground (arith, replace_inbox-IsSynced (filter keep s.inbox) s v.has_path)

  pub deliver-IsSynced :
      (e : InboxEntry) (s : Store) → IsSynced s → IsSynced (deliver_incoming env written e s).0
  unfolding deliver_incoming
  deliver-IsSynced e s v = ground arith

  reply-IsSynced :
      (now : ℕ) (p : PendingOutgoingTask) (reply state : Text) (s : Store)
      → IsSynced s
      → IsSynced (append_synthetic_reply env written now p reply state s)
  unfolding append_synthetic_reply
  reply-IsSynced now p reply state s v = ground arith

  claim-IsSynced :
      (id : Text) (s : Store) (p : PendingOutgoingTask) (s' : Store)
      → claim env id s ≡ some (p, s')
      → IsSynced s
      → IsSynced s'
  unfolding claim
  claim-IsSynced id s p s' e v = ground arith

  pub ingest-IsSynced :
      (terminal : Text → Bool) (now : ℕ) (t : Option Task) (s : Store)
      → IsSynced s
      → IsSynced (ingest_outgoing_terminal env terminal written now t s).0
  unfolding ingest_outgoing_terminal
  ingest-IsSynced terminal now none s v = v
  ingest-IsSynced terminal now (some t) s v = elim (Bool-cases (terminal t.status.state)) [
    | inr e ↦ rw e v
    | inl e ↦ rw e (elim (Option-cases (claim env t.id s)) [
      | inl c ↦ rw c v
      | inr ((p, s'), c) ↦ rw c (
          reply-IsSynced now p (extract_reply_text t) t.status.state s'
            (claim-IsSynced t.id s p s' c v))
    ])
  ]

  poll_fetched-IsSynced :
      (terminal : Text → Bool) (r : Round) (p : PendingOutgoingTask) (f : Option (Option Task))
      (s : Store)
      → r.write ≡ written
      → IsSynced s
      → IsSynced (poll_fetched env terminal r p f s).0
  unfolding poll_fetched
  poll_fetched-IsSynced terminal r p none s o v = v
  poll_fetched-IsSynced terminal r p (some none) s o v = v
  poll_fetched-IsSynced terminal r p (some (some t)) s o v =
      elim (Bool-cases (terminal t.status.state)) [
        | inr e ↦ rw e v
        | inl e ↦ rw e (elim (Option-cases (claim env p.task_id s)) [
          | inl c ↦ rw c v
          | inr ((q, s'), c) ↦
              rw (c, o)
                (reply-IsSynced r.replied_at p (extract_reply_text t) t.status.state s'
                  (claim-IsSynced p.task_id s q s' c v))
        ])
      ]

  poll_one-IsSynced :
      (terminal : Text → Bool) (max_age : ℕ) (r : Round) (p : PendingOutgoingTask) (s : Store)
      → r.write ≡ written
      → IsSynced s
      → IsSynced (poll_one env terminal max_age r p s).0
  unfolding poll_one
  poll_one-IsSynced terminal max_age r p s o v =
      elim (Bool-cases (ltb (p.sent_at + max_age) r.at)) [
        | inl e ↦ rw e (record { has_path = v.has_path; agrees = v.agrees })
        | inr e ↦ rw e (poll_fetched-IsSynced terminal r p r.fetched s o v)
      ]

  pub poll_all-IsSynced :
      (terminal : Text → Bool) (max_age : ℕ) (rounds : PendingOutgoingTask → Round)
      (ps : List PendingOutgoingTask) (s : Store)
      → ((p : PendingOutgoingTask) → (rounds p).write ≡ written)
      → IsSynced s
      → IsSynced (poll_all env terminal max_age rounds ps s).0
  unfolding poll_all
  poll_all-IsSynced terminal max_age rounds [] s o v = v
  poll_all-IsSynced terminal max_age rounds (p ∷ ps) s o v =
      poll_all-IsSynced terminal max_age rounds ps (poll_one env terminal max_age (rounds p) p s).0
        o (poll_one-IsSynced terminal max_age (rounds p) p s (o p) v)
