-- ===== src/Tools/Tracking.antt =====
-- internal/agent/mcp.go with internal/agent/store.go: from a message to the reply in the inbox.
use a2abridge.Security.Screen.{screen}
use a2abridge.Tools.Data.{Outbound, sent_task, Client, Deps, count_sent, SendArgs, sent}
use a2abridge.Tools.Defs.{
  outbound_message, track_sent, after_send, send_to, send_from, send_message, resolve_reply,
  subscribe_outgoing_reply,
}
use a2abridge.A2a.{Task}
use a2abridge.Prelude.{
  Bool-cases, Text, text_eq, text_eq_refl, lookup, delete, lookup-insert, lookup-delete, ℕ, ◌≡◌,
  refl, sym, ap, ◌∙◌, inl, inr, Bool, true, false, not, none, some, List, [], arith,
}
use a2abridge.Strings.{trim_space}
use a2abridge.Store.Entry.{InboxEntry, PendingOutgoingTask, Store, Env, WriteResult}
use a2abridge.Store.Inbox.{append_inbox, persist_inbox, replace_inbox}
use a2abridge.Store.Outgoing.{
  extract_reply_text, new_pending, synthetic_entry, append_synthetic_reply, track_outgoing, claim,
  ingest_outgoing_terminal,
}

module _ (env : Env) where
  replace-inbox :
      (w : WriteResult) (l : List InboxEntry) (s : Store) → (replace_inbox env w l s).inbox ≡ l
  unfolding replace_inbox persist_inbox
  replace-inbox w l s = ground arith

  replace-pending :
      (w : WriteResult) (l : List InboxEntry) (s : Store)
      → (replace_inbox env w l s).pending_outgoing ≡ s.pending_outgoing
  unfolding replace_inbox persist_inbox
  replace-pending w l s = ground arith

  append_old :
      (e : InboxEntry) (l : List InboxEntry)
      → (append_inbox e l).1 ≡ false
      → (append_inbox e l).0 ≡ l
  unfolding append_inbox
  append_old e l h = ground (arith, h)

  synthetic-inbox :
      (w : WriteResult) (now : ℕ) (p : PendingOutgoingTask) (reply state : Text) (s : Store)
      → text_eq (trim_space reply) [] ≡ false
      → let s' = append_synthetic_reply env w now p reply state s in
        (s'.inbox ≡ (append_inbox (synthetic_entry env now p reply state) s.inbox).0)
        × (s'.pending_outgoing ≡ s.pending_outgoing)
  unfolding append_synthetic_reply
  synthetic-inbox w now p reply state s h =
      elim (Bool-cases (append_inbox (synthetic_entry env now p reply state) s.inbox).1) [
        | inl e ↦ simp (h, e) (replace-inbox w _ s, replace-pending w _ s)
        | inr e ↦ simp (h, e) (sym (append_old _ s.inbox e), refl)
      ]

  claim-some :
      (id : Text) (p : PendingOutgoingTask) (s : Store)
      → lookup id s.pending_outgoing ≡ some p
      → claim env id s ≡ some (p, record s { pending_outgoing = delete id s.pending_outgoing })
  unfolding claim
  claim-some id p s h = rw (h, claim) refl

  -- A terminal task that is tracked: its synthetic reply joins the inbox, and it is tracked no more.
  ingested :
      (terminal : Text → Bool) (w : WriteResult) (now : ℕ) (t : Task) (p : PendingOutgoingTask)
      (s : Store)
      → terminal t.status.state ≡ true
      → lookup t.id s.pending_outgoing ≡ some p
      → text_eq (trim_space (extract_reply_text t)) [] ≡ false
      → let s' = (ingest_outgoing_terminal env terminal w now (some t) s).0 in
        (s'.inbox
          ≡ (append_inbox
              (synthetic_entry env now p (extract_reply_text t) t.status.state)
              s.inbox).0)
        × (s'.pending_outgoing ≡ delete t.id s.pending_outgoing)
  unfolding ingest_outgoing_terminal
  ingested terminal w now t p s g h k =
      simp (g, claim-some t.id p s h)
        (synthetic-inbox w now p (extract_reply_text t) t.status.state
          (record s { pending_outgoing = delete t.id s.pending_outgoing }) k)

module _ (d : Deps) (args : SendArgs) (url text : Text) (c : Client) (t t' : Task) where
  abbrev redacted : Text
  redacted = (screen d.patterns text).0

  -- What is tracked: the question as it was sent, under the name on the peer's card.
  abbrev pub asked : ℕ → PendingOutgoingTask
  asked now = new_pending now t.id url c.name redacted

  -- What the peer gets.
  abbrev pub request : Outbound
  request = outbound_message d args.context_id args.task_id (screen d.patterns text)

  tracked :
      (w : WriteResult) (now : ℕ) (s : Store)
      → args.peer_url ≡ some url
      → args.text ≡ some text
      → d.client url ≡ some c
      → c.send request (not args.blocking) ≡ some (sent_task t)
      → d.states.terminal t.status.state ≡ false
      → send_message d w now args s ≡ (
        track_outgoing d.env now t.id url c.name redacted (count_sent s),
        sent (sent_task t),
        some t.id,
      )
  unfolding send_message send_from send_to after_send track_sent
  tracked w now s e1 e2 e3 e4 e5 = simp (e1, e2, e3, e4, e5) refl

  track-lookup :
      (now : ℕ) (s : Store)
      → lookup t.id (track_outgoing d.env now t.id url c.name redacted s).pending_outgoing
        ≡ some (asked now)
  unfolding track_outgoing
  track-lookup now s =
      rw (lookup-insert t.id t.id (asked now) s.pending_outgoing, text_eq_refl t.id) refl

  resolved :
      (w' : WriteResult) (later : ℕ) (s1 : Store) (p : PendingOutgoingTask)
      → lookup t.id s1.pending_outgoing ≡ some p
      → d.client url ≡ some c
      → c.get_task t.id ≡ some t'
      → t'.id ≡ t.id
      → d.states.terminal t'.status.state ≡ true
      → text_eq (trim_space (extract_reply_text t')) [] ≡ false
      → let s2 = (subscribe_outgoing_reply d w' later false t.id (d.client url) s1).0 in
        (s2.inbox
          ≡ (append_inbox
              (synthetic_entry d.env later p (extract_reply_text t') t'.status.state)
              s1.inbox).0)
        × (lookup t.id s2.pending_outgoing ≡ none)
  unfolding subscribe_outgoing_reply resolve_reply
  resolved w' later s1 p h e3 e6 e7 e8 e9 =
      let found = ap (λ id. lookup id s1.pending_outgoing) e7 ∙ h in
      let (inbox, pending) = ingested d.env d.states.terminal w' later t' p s1 e8 found e9 in
      simp (e3, e6)
        (
          inbox,
          ap (lookup t.id) pending
              ∙ lookup-delete t'.id t.id s1.pending_outgoing
              ∙ rw (e7, text_eq_refl t.id) refl,
        )

  -- A message that a peer takes on as a task, and the reply: the task's reply is subscribed to, and
  -- when the peer resolves it to its terminal state with a text, the inbox has gained exactly the
  -- synthetic entry of that reply, which quotes the screened question, unless it had one of that id;
  -- and the task is tracked no more, so that the poll does not answer it again.
  pub send_message-reply :
      (w w' : WriteResult) (now later : ℕ) (s : Store)
      → args.peer_url ≡ some url
      → args.text ≡ some text
      → d.client url ≡ some c
      → c.send request (not args.blocking) ≡ some (sent_task t)
      → d.states.terminal t.status.state ≡ false
      → c.get_task t.id ≡ some t'
      → t'.id ≡ t.id
      → d.states.terminal t'.status.state ≡ true
      → text_eq (trim_space (extract_reply_text t')) [] ≡ false
      → let (s1, result, subscribed) = send_message d w now args s in
        let s2 = (subscribe_outgoing_reply d w' later false t.id (d.client url) s1).0 in
        (result ≡ sent (sent_task t))
        × (subscribed ≡ some t.id)
        × (s2.inbox
            ≡ (append_inbox
                (synthetic_entry d.env later (asked now) (extract_reply_text t') t'.status.state)
                s.inbox).0)
        × (lookup t.id s2.pending_outgoing ≡ none)
  unfolding track_outgoing
  send_message-reply w w' now later s e1 e2 e3 e4 e5 e6 e7 e8 e9 =
      let e = tracked w now s e1 e2 e3 e4 e5 in
      let s1 = track_outgoing d.env now t.id url c.name redacted (count_sent s) in
      let done =
        resolved w' later s1 (asked now) (track-lookup now (count_sent s)) e3 e6 e7 e8 e9 in
      (
        ap (λ r. r.1) e,
        ap (λ r. r.2) e,
        ap (λ r. (subscribe_outgoing_reply d w' later false t.id (d.client url) r.0).0.inbox) e
            ∙ done.0,
        ap
              (λ r.
                lookup t.id
                  (subscribe_outgoing_reply d w' later false t.id (d.client url)
                    r.0).0.pending_outgoing)
              e
            ∙ done.1,
      )
