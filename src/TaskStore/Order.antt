-- ===== src/TaskStore/Order.antt =====
-- internal/agent/taskstore.go, List: the order of the listed tasks.
use mathlib.Core.List.{Perm}
use mathlib.Core.List.Perm
use a2abridge.TaskStore.Data.{TtlEntry}
use a2abridge.Prelude.{
  Bool-cases, All, ◌≡◌, refl, sym, ◌≢◌, inl, inr, true, false, List, [], ◌∷◌, ◌++◌, arith,
}
use a2abridge.Strings.Order.{text_lt, text_lt_irrefl, text_lt_trans, text_lt_total}
use a2abridge.TaskStore.Listing.{Key, key, comes_before, insert_entry, sort_entries, after_cursor}

pub comes_before_irrefl : (a : Key) → comes_before a a ≡ false
unfolding comes_before
comes_before_irrefl (t, id) = unfold text_lt in ground (arith, text_lt_irrefl id)

pub comes_before_trans :
    (a b c : Key) → comes_before a b ≡ true → comes_before b c ≡ true → comes_before a c ≡ true
unfolding comes_before
comes_before_trans (t, i) (u, j) (v, k) h l = ground (arith, text_lt_trans k j i)

comes_before_total : (a b : Key) → a.1 ≢ b.1 → comes_before a b ≡ false → comes_before b a ≡ true
unfolding comes_before
comes_before_total (t, i) (u, j) n h = ground (arith, text_lt_total j i (λ e. n (sym e)))

-- Every entry comes before all that follow it.
abbrev pub Descending : List TtlEntry → Type 0
Descending [] = Unit
Descending (e ∷ l) = All (λ x. comes_before (key e) (key x) ≡ true) l × Descending l

abbrev pub DistinctIds : List TtlEntry → Type 0
DistinctIds [] = Unit
DistinctIds (e ∷ l) = All (λ x. x.task.id ≢ e.task.id) l × DistinctIds l

insert_entry-All :
    (P : TtlEntry → Type 0) (e : TtlEntry) (l : List TtlEntry)
    → P e
    → All P l
    → All P (insert_entry e l)
unfolding insert_entry
insert_entry-All P e [] p h = (p, tt)
insert_entry-All P e (x ∷ l) p h = elim (Bool-cases (comes_before (key e) (key x))) [
  | inl c ↦ rw c (p, h)
  | inr c ↦ rw c (h.0, insert_entry-All P e l p h.1)
]

later-All :
    (a b : Key) (l : List TtlEntry)
    → comes_before a b ≡ true
    → All (λ x. comes_before b (key x) ≡ true) l
    → All (λ x. comes_before a (key x) ≡ true) l
later-All a b [] h k = tt
later-All a b (x ∷ l) h k = (comes_before_trans a b (key x) h k.0, later-All a b l h k.1)

insert_entry-Descending :
    (e : TtlEntry) (l : List TtlEntry)
    → All (λ x. x.task.id ≢ e.task.id) l
    → Descending l
    → Descending (insert_entry e l)
unfolding insert_entry
insert_entry-Descending e [] n d = (tt, tt)
insert_entry-Descending e (x ∷ l) n d = elim (Bool-cases (comes_before (key e) (key x))) [
  | inl c ↦ rw c ((c, later-All (key e) (key x) l c d.0), d)
  | inr c ↦ rw c (
    insert_entry-All (λ y. comes_before (key x) (key y) ≡ true) e l
        (comes_before_total (key e) (key x) (λ q. n.0 (sym q)) c) d.0,
    insert_entry-Descending e l n.1 d.1,
  )
]

pub sort_entries-All :
    (P : TtlEntry → Type 0) (l : List TtlEntry) → All P l → All P (sort_entries l)
unfolding sort_entries
sort_entries-All P [] h = tt
sort_entries-All P (e ∷ l) h = insert_entry-All P e (sort_entries l) h.0 (sort_entries-All P l h.1)

pub sort_entries-Descending : (l : List TtlEntry) → DistinctIds l → Descending (sort_entries l)
unfolding sort_entries
sort_entries-Descending [] d = tt
sort_entries-Descending (e ∷ l) d =
    insert_entry-Descending e (sort_entries l) (sort_entries-All (λ x. x.task.id ≢ e.task.id) l d.0)
      (sort_entries-Descending l d.1)

insert_entry-perm : (e : TtlEntry) (l : List TtlEntry) → Perm (insert_entry e l) (e ∷ l)
unfolding insert_entry
insert_entry-perm e [] = Perm.refl (e ∷ [])
insert_entry-perm e (x ∷ l) = elim (Bool-cases (comes_before (key e) (key x))) [
  | inl c ↦ rw c (Perm.refl (e ∷ x ∷ l))
  | inr c ↦ rw c (Perm.trans (Perm.cons x (insert_entry-perm e l)) (Perm.swap e x l))
]

pub sort_entries-perm : (l : List TtlEntry) → Perm (sort_entries l) l
unfolding sort_entries
sort_entries-perm [] = Perm.refl []
sort_entries-perm (e ∷ l) =
    Perm.trans (insert_entry-perm e (sort_entries l)) (Perm.cons e (sort_entries-perm l))

after_cursor-front :
    (c : Key) (l : List TtlEntry)
    → All (λ x. comes_before c (key x) ≡ true) l
    → after_cursor c l ≡ l
unfolding after_cursor
after_cursor-front c [] h = refl
after_cursor-front c (x ∷ l) h = rw h.0

-- The cursor of an entry of the list selects exactly what follows that entry.
pub after_cursor-split :
    (a : List TtlEntry) (x : TtlEntry) (b : List TtlEntry)
    → Descending (a ++ x ∷ b)
    → after_cursor (key x) (a ++ x ∷ b) ≡ b
unfolding after_cursor
after_cursor-split [] x b d = rw (comes_before_irrefl (key x)) (after_cursor-front (key x) b d.0)
after_cursor-split (e ∷ a) x b d = rw (not_before e x a b d.0) (after_cursor-split a x b d.1)
  where
    not_before :
        (e x : TtlEntry) (a b : List TtlEntry)
        → All (λ y. comes_before (key e) (key y) ≡ true) (a ++ x ∷ b)
        → comes_before (key x) (key e) ≡ false
    not_before e x [] b h =
        ground (arith, comes_before_trans (key e) (key x) (key e) h.0, comes_before_irrefl (key e))
    not_before e x (y ∷ a) b h = not_before e x a b h.1
