-- ===== src/Store/Durability.antt =====
-- internal/agent/store.go, LoadInbox: a restart restores the inbox from its snapshot.
use a2abridge.Prelude.{
  length, All, length-append, Text, text_eq, text_eq_iff, ◌+◌, ◌≤◌, ◌<◌, ◌≡◌, refl, sym, ap, ◌∙◌,
  ◌≢◌, inl, inr, Bool, true, false, not, Option, none, some, List, [], ◌∷◌, ◌++◌, map, append_assoc,
  append-nil, arith,
}
use a2abridge.Store.Entry.{
  inbox_soft_cap, InboxEntry, has_reply_id, SnapshotEntry, to_snapshot, of_snapshot,
  PendingOutgoingTask, Store, Env, EnvLaws, written, empty_store,
}
use a2abridge.Store.Inbox.{
  inbox_contains, append_inbox, append_all, restore, is_expired_reply, evict_expired_replies,
  drain_inbox, peek_inbox, drop_task_entries, load_file, load_inbox,
}
use a2abridge.Store.Outgoing.{track_outgoing, poll_outgoing}
use a2abridge.Store.Unique.{UniqueIds, inbox_contains-append, clash_symm, contains_head}
use a2abridge.Store.Step.{
  Op, deliver, evict, drain, peek, drop_task, load, track, ingest, poll, step, run,
}
use a2abridge.Store.Invariant.{IsWellFormed, run-IsWellFormed}
use a2abridge.Store.Synced.{
  IsSynced, replace_inbox-IsSynced, keep_entries-IsSynced, deliver-IsSynced, ingest-IsSynced,
  poll_all-IsSynced,
}

-- What a snapshot keeps of an entry: kind and state are lost.
abbrev pub strip : InboxEntry → InboxEntry
strip e = of_snapshot (to_snapshot e)

-- No entry of the list clashes with the queue.
abbrev Fresh : List InboxEntry → List InboxEntry → Type 0
Fresh es l = All (λ e. inbox_contains e.message_id l ≡ false) es

Fresh-append :
    (es l : List InboxEntry) (e : InboxEntry)
    → Fresh es l
    → inbox_contains e.message_id es ≡ false
    → Fresh es (l ++ strip e ∷ [])
Fresh-append [] l e h c = tt
Fresh-append (d ∷ es) l e h c = (
  rw (inbox_contains-append d.message_id l (strip e))
      (ground (arith, contains_head e.message_id d es, clash_symm d.message_id e.message_id)),
  Fresh-append es l e h.1 (ground (arith, contains_head e.message_id d es)),
)

append_inbox-fresh :
    (e : InboxEntry) (l : List InboxEntry)
    → inbox_contains e.message_id l ≡ false
    → length l < inbox_soft_cap
    → append_inbox e l ≡ (l ++ e ∷ [], true)
unfolding append_inbox
append_inbox-fresh e l h b = ground (arith, length-append l (e ∷ []))

append_all-cons :
    (e : SnapshotEntry) (es : List SnapshotEntry) (l : List InboxEntry)
    → append_all (e ∷ es) l ≡ append_all es (append_inbox (of_snapshot e) l).0
unfolding append_all
append_all-cons e es l = refl

append_all-nil : (l : List InboxEntry) → append_all [] l ≡ l
unfolding append_all
append_all-nil l = refl

append_all-Fresh :
    (es l : List InboxEntry)
    → Fresh es l
    → UniqueIds es
    → length l + length es ≤ inbox_soft_cap
    → append_all (map to_snapshot es) l ≡ l ++ map strip es
append_all-Fresh [] l h u b = append_all-nil l ∙ sym (append-nil l)
append_all-Fresh (e ∷ es) l h u b =
    rw
      (
        append_all-cons (to_snapshot e) (map to_snapshot es) l,
        append_inbox-fresh (strip e) l h.0 (omega arith),
      )
      (append_all-Fresh es (l ++ strip e ∷ []) (Fresh-append es l e h.1 u.0) u.1
          (omega (arith, length-append l (strip e ∷ [])))
        ∙ append_assoc l (strip e ∷ []) (map strip es))

Fresh-nil : (es : List InboxEntry) → Fresh es []
unfolding inbox_contains
Fresh-nil [] = tt
Fresh-nil (e ∷ es) = (ground arith, Fresh-nil es)

-- Every write of the call succeeds, and it is no LoadInbox.
abbrev pub Writes : Op → Type 0
Writes (deliver w e) = w ≡ written
Writes (evict w now) = w ≡ written
Writes (drain w) = w ≡ written
Writes (peek w) = w ≡ written
Writes (drop_task w id) = w ≡ written
Writes (load readable) = ⊥
Writes (track now id url name question) = Unit
Writes (ingest w now t) = w ≡ written
Writes (poll max_age rounds) = (p : PendingOutgoingTask) → (rounds p).write ≡ written

-- A new process at the file that the old one left.
abbrev pub restart : Bool → Store → Store
restart hooked s = record (empty_store s.inbox_path hooked) { snapshot = s.snapshot }

module _ (env : Env) (terminal : Text → Bool) where
  step-IsSynced :
      (op : Op) (s : Store) → Writes op → IsSynced env s → IsSynced env (step env terminal op s)
  unfolding step
  step-IsSynced (deliver w e) s o v = rw o (deliver-IsSynced env e s v)
  step-IsSynced (evict w now) s o v =
      unfold evict_expired_replies in
      rw o (keep_entries-IsSynced env (λ e. not (is_expired_reply env now e)) s v)
  step-IsSynced (drain w) s o v =
      unfold drain_inbox in rw o (replace_inbox-IsSynced env [] s v.has_path)
  step-IsSynced (peek w) s o v =
      unfold peek_inbox in rw o (keep_entries-IsSynced env (λ e. not (has_reply_id e)) s v)
  step-IsSynced (drop_task w id) s o v =
      unfold drop_task_entries in
      rw o (keep_entries-IsSynced env (λ e. not (text_eq e.task_id id)) s v)
  step-IsSynced (load readable) s o v = absurd o
  step-IsSynced (track now id url name question) s o v =
      unfold track_outgoing in record { has_path = v.has_path; agrees = v.agrees }
  step-IsSynced (ingest w now t) s o v = rw o (ingest-IsSynced env terminal now t s v)
  step-IsSynced (poll max_age rounds) s o v =
      unfold poll_outgoing in
      poll_all-IsSynced env terminal max_age rounds (map (λ kv. kv.1) s.pending_outgoing) s o v

  run-IsSynced :
      (ops : List Op) (s : Store)
      → All Writes ops
      → IsSynced env s
      → IsSynced env (run env terminal ops s)
  unfolding run
  run-IsSynced [] s o v = v
  run-IsSynced (op ∷ ops) s o v =
      run-IsSynced ops (step env terminal op s) o.1 (step-IsSynced op s o.0 v)

  -- A file that decodes is restored.
  load_file-decoded :
      (b : Text) (snap : List SnapshotEntry) (s : Store)
      → b ≢ []
      → env.decode b ≡ some snap
      → load_file env (some b) s ≡ restore (some snap) s
  unfolding load_file
  load_file-decoded [] snap s h e = absurd (h refl)
  load_file-decoded (c ∷ b) snap s h e = rw e

  inbox-restore :
      (snap : List SnapshotEntry) (s : Store)
      → (restore (some snap) s).inbox ≡ append_all snap s.inbox
  unfolding restore
  inbox-restore snap s = refl

  load_file-none : (s : Store) → load_file env none s ≡ s
  unfolding load_file
  load_file-none s = refl

  load_inbox-file :
      (s : Store)
      → text_eq s.inbox_path [] ≡ false
      → load_inbox env true s ≡ load_file env s.snapshot s
  unfolding load_inbox
  load_inbox-file s h = rw h

  restore_synced :
      (laws : EnvLaws env) (hooked : Bool) (s : Store)
      → IsWellFormed s
      → IsSynced env s
      → (load_inbox env true (restart hooked s)).inbox ≡ map strip s.inbox
  restore_synced laws hooked s v y =
      rw (load_inbox-file (restart hooked s) y.has_path) (elim y.agrees [
        | inl (e, f) ↦ rw (f, load_file-none) (rw e)
        | inr f ↦
            ap (λ (x : Option Text). (load_file env x fresh).inbox) f
            ∙ ap (λ (x : Store). x.inbox)
                (load_file-decoded (env.encode snap) snap fresh (laws.encode-ne-nil snap)
                  (laws.decode-encode snap))
            ∙ inbox-restore snap fresh
            ∙ append_all-Fresh s.inbox [] (Fresh-nil s.inbox) v.unique (omega (arith, v.bounded))
      ])
    where
      snap : List SnapshotEntry
      snap = map to_snapshot s.inbox

      fresh : Store
      fresh = restart hooked s

  -- No message is lost by a crash: after any calls whose writes succeed (LoadInbox aside), on a
  -- store that started empty with a snapshot path, a new process that loads the snapshot has every
  -- entry of the old inbox, in order, without its kind and state.
  pub restart_restores :
      (laws : EnvLaws env) (path : Text) (old new : Bool) (ops : List Op)
      → path ≢ []
      → All Writes ops
      → let s = run env terminal ops (empty_store path old) in
        (load_inbox env true (restart new s)).inbox ≡ map strip s.inbox
  restart_restores laws path old new ops h o =
      let s = run env terminal ops (empty_store path old) in
      restore_synced laws new s
        (run-IsWellFormed env terminal ops (empty_store path old) (omega arith))
        (run-IsSynced ops (empty_store path old) o
          (record { has_path = ground (arith, text_eq_iff path []); agrees = inl (refl, refl) }))
