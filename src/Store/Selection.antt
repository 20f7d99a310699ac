-- ===== src/Store/Selection.antt =====
-- internal/agent/store.go: what evictExpiredReplies and PeekInbox keep.
use a2abridge.Prelude.{
  length, filter, length-filter-le, filter-eq_self, filter-filter, ◌≡◌, refl, ap, Bool, not, arith,
}
use a2abridge.Store.Entry.{InboxEntry, has_reply_id, Store, Env, WriteResult}
use a2abridge.Store.Inbox.{keep_entries, peek_inbox}

module _ (env : Env) where
  -- What a filtering section leaves is the filtered inbox, written out or not.
  pub inbox-keep_entries :
      (w : WriteResult) (keep : InboxEntry → Bool) (s : Store)
      → (keep_entries env w keep s).inbox ≡ filter keep s.inbox
  unfolding keep_entries
  inbox-keep_entries w keep s =
      ground (arith, filter-eq_self keep s.inbox, length-filter-le keep s.inbox)

  keep_entries_noop :
      (w : WriteResult) (keep : InboxEntry → Bool) (s : Store)
      → filter keep s.inbox ≡ s.inbox
      → keep_entries env w keep s ≡ s
  unfolding keep_entries
  keep_entries_noop w keep s h = ground (arith, ap length h)

  -- A second filter by the same test is a no-op, the snapshot and the gauge included.
  keep_entries_idem :
      (w w' : WriteResult) (keep : InboxEntry → Bool) (s : Store)
      → keep_entries env w' keep (keep_entries env w keep s) ≡ keep_entries env w keep s
  keep_entries_idem w w' keep s =
      keep_entries_noop w' keep (keep_entries env w keep s)
        (rw (inbox-keep_entries w keep s) (filter-filter keep s.inbox))

  -- PeekInbox returns the whole inbox and consumes the one-shot replies: a second peek returns
  -- exactly the entries of the first, in order, that are no replies, and changes nothing more.
  pub peek_twice :
      (w w' : WriteResult) (s : Store)
      → let (s', first) = peek_inbox env w s in
        (first ≡ s.inbox) × (peek_inbox env w' s' ≡ (s', filter (λ e. not (has_reply_id e)) first))
  unfolding peek_inbox
  peek_twice w w' s = (
    refl,
    λ i. (
      keep_entries_idem w w' (λ e. not (has_reply_id e)) s i,
      inbox-keep_entries w (λ e. not (has_reply_id e)) s i,
    ),
  )
