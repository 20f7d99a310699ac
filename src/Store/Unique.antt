-- ===== src/Store/Unique.antt =====
-- internal/agent/store.go, appendInboxLocked: entries with distinct message ids.
use a2abridge.Prelude.{
  Bool-cases, length, drop, filter, length-append, length-drop, any-append, any-filter, Text,
  text_eq, text_eq_iff, ℕ, zero, suc, ◌-◌, ◌≤◌, ◌≡◌, inl, inr, Bool, false, not, ◌&&◌, ◌||◌, List,
  [], ◌∷◌, ◌++◌, arith,
}
use a2abridge.Store.Entry.{inbox_soft_cap, InboxEntry}
use a2abridge.Store.Inbox.{inbox_contains, append_inbox}

-- No two entries share a message id, entries without one aside.
abbrev pub UniqueIds : List InboxEntry → Type 0
UniqueIds [] = Unit
UniqueIds (e ∷ l) = (inbox_contains e.message_id l ≡ false) × UniqueIds l

pub inbox_contains-filter :
    (p : InboxEntry → Bool) (id : Text) (l : List InboxEntry)
    → inbox_contains id l ≡ false
    → inbox_contains id (filter p l) ≡ false
unfolding inbox_contains
inbox_contains-filter p id l h =
    ground (arith, any-filter p (λ (e : InboxEntry). text_eq e.message_id id) l)

pub inbox_contains-append :
    (id : Text) (l : List InboxEntry) (e : InboxEntry)
    → inbox_contains id (l ++ e ∷ [])
      ≡ (inbox_contains id l || (not (text_eq id []) && text_eq e.message_id id))
unfolding inbox_contains
inbox_contains-append id l e =
    rw (any-append (λ (e : InboxEntry). text_eq e.message_id id) l (e ∷ [])) (ground arith)

pub filter-UniqueIds :
    (p : InboxEntry → Bool) (l : List InboxEntry) → UniqueIds l → UniqueIds (filter p l)
filter-UniqueIds p [] u = tt
filter-UniqueIds p (e ∷ l) u =
    ground (arith, inbox_contains-filter p e.message_id l, filter-UniqueIds p l u.1)

pub drop-UniqueIds : (n : ℕ) (l : List InboxEntry) → UniqueIds l → UniqueIds (drop n l)
drop-UniqueIds zero l u = u
drop-UniqueIds (suc n) [] u = tt
drop-UniqueIds (suc n) (e ∷ l) u = drop-UniqueIds n l u.1

-- The test of a redelivery is symmetric in the two ids.
pub clash_symm :
    (d e : Text) (l : List InboxEntry)
    → (not (text_eq e []) && text_eq d e) ≡ false
    → (not (text_eq d []) && text_eq e d) ≡ false
clash_symm d e l h =
    ground (arith, text_eq_iff d e, text_eq_iff e d, text_eq_iff e [], text_eq_iff d [])

pub contains_head :
    (id : Text) (d : InboxEntry) (l : List InboxEntry)
    → inbox_contains id (d ∷ l)
      ≡ ((not (text_eq id []) && text_eq d.message_id id) || inbox_contains id l)
unfolding inbox_contains
contains_head id d l = ground arith

pub append-UniqueIds :
    (l : List InboxEntry) (e : InboxEntry)
    → inbox_contains e.message_id l ≡ false
    → UniqueIds l
    → UniqueIds (l ++ e ∷ [])
append-UniqueIds [] e h u = (unfold inbox_contains in ground arith, tt)
append-UniqueIds (d ∷ l) e h u =
    let parts = contains_head e.message_id d l in
    (
      rw (inbox_contains-append d.message_id l e)
          (ground (arith, parts, clash_symm d.message_id e.message_id l)),
      append-UniqueIds l e (ground (arith, parts)) u.1,
    )

pub append_inbox-UniqueIds :
    (e : InboxEntry) (l : List InboxEntry) → UniqueIds l → UniqueIds (append_inbox e l).0
unfolding append_inbox
append_inbox-UniqueIds e l u = elim (Bool-cases (inbox_contains e.message_id l)) [
  | inl old ↦ rw old u
  | inr new ↦ rw new (
      let l' = l ++ e ∷ [] in
      ground (
        arith,
        append-UniqueIds l e new u,
        drop-UniqueIds (length l' - inbox_soft_cap) l' (append-UniqueIds l e new u),
      ))
]

pub append_inbox-bounded :
    (e : InboxEntry) (l : List InboxEntry)
    → length l ≤ inbox_soft_cap
    → length (append_inbox e l).0 ≤ inbox_soft_cap
unfolding append_inbox
append_inbox-bounded e l h =
    let l' = l ++ e ∷ [] in
    ground (arith, length-append l (e ∷ []), length-drop (length l' - inbox_soft_cap) l')
