-- ===== src/Store/Inbox.antt =====
-- internal/agent/store.go: the operations on the inbox. Each is one critical section of the
-- store's mutex; a `WriteResult` says what became of the snapshot that the section writes.
use a2abridge.Prelude.{
  ltb, if◌then◌else◌, length, drop, filter, any, Text, text_eq, ℕ, ◌+◌, ◌-◌, Bool, true, false, not,
  ◌&&◌, Option, none, some, List, [], ◌∷◌, ◌++◌, map,
}
use a2abridge.Metrics.{inc_messages_received, set_inbox_size}
use a2abridge.Store.Entry.{
  inbox_soft_cap, reply_entry_ttl, InboxEntry, has_reply_id, is_synthetic_reply, SnapshotEntry,
  to_snapshot, of_snapshot, Effect, on_incoming, hook_inbound, Store, Env, WriteResult,
  write_failed, rename_failed, written,
}

unfoldable pub inbox_contains : Text → List InboxEntry → Bool
inbox_contains id l = not (text_eq id []) && any (λ e. text_eq e.message_id id) l

-- `appendInboxLocked` on the inbox alone.
unfoldable pub append_inbox : InboxEntry → List InboxEntry → List InboxEntry × Bool
unfolding inbox_contains
append_inbox e l = if inbox_contains e.message_id l then (l, false) else (
  let l' = l ++ e ∷ [] in
      let over = length l' - inbox_soft_cap in if ltb 0 over then drop over l' else l',
  true,
)

abbrev pub write_file : WriteResult → Text → Option Text → Option Text
write_file written b old = some b
write_file write_failed b old = old
write_file rename_failed b old = old

-- The loop of `LoadInbox`.
unfoldable pub append_all : List SnapshotEntry → List InboxEntry → List InboxEntry
unfolding append_inbox
append_all [] l = l
append_all (e ∷ es) l = append_all es (append_inbox (of_snapshot e) l).0

unfoldable pub restore : Option (List SnapshotEntry) → Store → Store
unfolding append_all set_inbox_size
restore none s = s
restore (some snap) s =
    let l = append_all snap s.inbox in
    record s { inbox = l; metrics = set_inbox_size (length l) s.metrics }

module _ (env : Env) where
  unfoldable pub persist_inbox : WriteResult → Store → Store
  unfolding set_inbox_size
  persist_inbox w s =
      let s' = record s { metrics = set_inbox_size (length s.inbox) s.metrics } in
      if text_eq s.inbox_path []
      then s'
      else record s' { snapshot = write_file w (env.encode (map to_snapshot s.inbox)) s.snapshot }

  -- A new inbox that is written out.
  unfoldable pub replace_inbox : WriteResult → List InboxEntry → Store → Store
  unfolding persist_inbox
  replace_inbox w l s = persist_inbox w (record s { inbox = l })

  abbrev pub callback : Store → InboxEntry → List Effect
  callback s e = if s.has_callback then on_incoming e ∷ [] else []

  unfoldable pub deliver_incoming : WriteResult → InboxEntry → Store → Store × Bool
  unfolding append_inbox replace_inbox inc_messages_received
  deliver_incoming w e s =
      let (l, is_new) = append_inbox e s.inbox in
      if is_new
      then (
        let s' = replace_inbox w l s in
            record s' {
              metrics = inc_messages_received s'.metrics;
              fired = s.fired ++ (callback s e ++ hook_inbound e.task_id e.sender e.text ∷ []);
            },
        true,
      )
      else (s, false)

  -- The entry is a delivered reply whose time of delivery is before the cutoff.
  unfoldable pub is_expired_reply : ℕ → InboxEntry → Bool
  unfolding has_reply_id
  is_expired_reply now e =
      has_reply_id e
      && (not (text_eq e.ts []) && elim (env.parse_time e.ts) [
        | none ↦ false
        | some when ↦ ltb (when + reply_entry_ttl) now
      ])

  -- The shape of the three sections that filter the inbox: what is kept is written out only if
  -- something was dropped.
  unfoldable pub keep_entries : WriteResult → (InboxEntry → Bool) → Store → Store
  unfolding replace_inbox
  keep_entries w keep s =
      let kept = filter keep s.inbox in
      if ltb (length kept) (length s.inbox) then replace_inbox w kept s else s

  unfoldable pub evict_expired_replies : WriteResult → ℕ → Store → Store × ℕ
  unfolding is_expired_reply keep_entries
  evict_expired_replies w now s =
      let s' = keep_entries w (λ e. not (is_expired_reply now e)) s in
      (s', length s.inbox - length s'.inbox)

  unfoldable pub drain_inbox : WriteResult → Store → Store × List InboxEntry
  unfolding replace_inbox
  drain_inbox w s = (replace_inbox w [] s, s.inbox)

  unfoldable pub peek_inbox : WriteResult → Store → Store × List InboxEntry
  unfolding has_reply_id keep_entries
  peek_inbox w s = (keep_entries w (λ e. not (has_reply_id e)) s, s.inbox)

  unfoldable pub drop_task_entries : WriteResult → Text → Store → Store × Bool
  unfolding is_synthetic_reply keep_entries
  drop_task_entries w task_id s = (
    keep_entries w (λ e. not (text_eq e.task_id task_id)) s,
    any (λ e. text_eq e.task_id task_id && is_synthetic_reply e) s.inbox,
  )

  unfoldable pub load_file : Option Text → Store → Store
  unfolding restore
  load_file none s = s
  load_file (some []) s = s
  load_file (some (c ∷ b)) s = restore (env.decode (c ∷ b)) s

  -- `readable` is false when `os.ReadFile` fails on a file that is there.
  unfoldable pub load_inbox : Bool → Store → Store
  unfolding load_file
  load_inbox readable s =
      if text_eq s.inbox_path [] then s else if readable then load_file s.snapshot s else s
