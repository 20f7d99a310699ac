-- ===== src/Store/Delivery.antt =====
-- internal/agent/store.go, deliverIncoming: effectively-once delivery.
use a2abridge.Prelude.{
  length, drop, length-append, Text, text_eq_iff, text_eq_refl, ℕ, zero, suc, ◌-◌, ◌≤◌, ◌≡◌, ◌≢◌,
  true, false, List, [], ◌∷◌, ◌++◌, arith,
}
use a2abridge.Store.Entry.{inbox_soft_cap, InboxEntry, Store, Env, WriteResult}
use a2abridge.Store.Inbox.{inbox_contains, append_inbox, deliver_incoming}
use a2abridge.Store.Unique.{inbox_contains-append, contains_head}

-- The newest entry is among those that the soft cap keeps.
contains-drop_last :
    (id : Text) (n : ℕ) (l : List InboxEntry) (e : InboxEntry)
    → n ≤ length l
    → inbox_contains id (e ∷ []) ≡ true
    → inbox_contains id (drop n (l ++ e ∷ [])) ≡ true
contains-drop_last id zero l e h c =
    unfold inbox_contains in ground (arith, inbox_contains-append id l e)
contains-drop_last id (suc n) [] e h c = absurd (omega arith)
contains-drop_last id (suc n) (d ∷ l) e h c = contains-drop_last id n l e (omega arith) c

contains_self : (e : InboxEntry) → e.message_id ≢ [] → inbox_contains e.message_id (e ∷ []) ≡ true
unfolding inbox_contains
contains_self e h = ground (arith, text_eq_refl e.message_id, text_eq_iff e.message_id [])

append_inbox-contains :
    (e : InboxEntry) (l : List InboxEntry)
    → e.message_id ≢ []
    → inbox_contains e.message_id (append_inbox e l).0 ≡ true
unfolding append_inbox
append_inbox-contains e l h =
    let over = length (l ++ e ∷ []) - inbox_soft_cap in
    ground (
      arith,
      contains_self e h,
      length-append l (e ∷ []),
      inbox_contains-append e.message_id l e,
      contains_head e.message_id e [],
      contains-drop_last e.message_id over l e,
    )

inbox-deliver :
    (env : Env) (w : WriteResult) (e : InboxEntry) (s : Store)
    → (deliver_incoming env w e s).0.inbox ≡ (append_inbox e s.inbox).0
unfolding deliver_incoming
inbox-deliver env w e s = unfold append_inbox in ground arith

deliver_duplicate :
    (env : Env) (w : WriteResult) (e : InboxEntry) (s : Store)
    → inbox_contains e.message_id s.inbox ≡ true
    → deliver_incoming env w e s ≡ (s, false)
unfolding deliver_incoming
deliver_duplicate env w e s h = unfold append_inbox in rw h

-- A message with an id is delivered at most once while it is queued: whatever the store held,
-- after a delivery of `e` a second message with the same nonempty id is reported as a duplicate,
-- and changes nothing: not the inbox, the snapshot, the counters or the goroutines started.
pub deliver_twice :
    (env : Env) (w w' : WriteResult) (e e' : InboxEntry) (s : Store)
    → e.message_id ≢ []
    → e'.message_id ≡ e.message_id
    → let s' = (deliver_incoming env w e s).0 in deliver_incoming env w' e' s' ≡ (s', false)
deliver_twice env w w' e e' s h same =
    deliver_duplicate env w' e' (deliver_incoming env w e s).0
      (rw (same, inbox-deliver env w e s) (append_inbox-contains e s.inbox h))
