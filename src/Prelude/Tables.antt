-- ===== src/Prelude/Tables.antt =====
-- Maps as lists of entries: what holds of every entry, and the entries that a test keeps.
use mathlib.Core.Path.{◌≡◌, refl}
use mathlib.Core.Bool.{Bool}
use mathlib.Core.Option.{Option, none, some}
use mathlib.Core.List.{[], ◌∷◌}
use native.Mathlib.Omega.{arith}
use a2abridge.Prelude.Tests.{if◌then◌else◌}
use a2abridge.Prelude.Lists.{filter, All}
use a2abridge.Prelude.Texts.{Text, text_eq_iff}
use a2abridge.Prelude.Maps.{Map, lookup, insert, delete, UniqueKeys}

module _ {ℓ κ} {V : Type ℓ} (P : Text × V → Type κ) where
  pub insert-All : (k : Text) (v : V) (m : Map V) → P (k, v) → All P m → All P (insert k v m)
  unfolding insert
  insert-All k v [] p h = (p, tt)
  insert-All k v ((j, w) ∷ m) p h = ground (arith, insert-All k v m p h.1)

  pub delete-All : (k : Text) (m : Map V) → All P m → All P (delete k m)
  unfolding delete
  delete-All k [] h = tt
  delete-All k ((j, w) ∷ m) h = ground (arith, delete-All k m h.1)

-- What a lookup finds among the entries whose value passes a test.
abbrev pub only {ℓ} : {V : Type ℓ} → (V → Bool) → Option V → Option V
only p none = none
only p (some v) = if p v then some v else none

module _ {ℓ} {V : Type ℓ} (p : V → Bool) where
  pub lookup-filter-none :
      (k : Text) (m : Map V) → lookup k m ≡ none → lookup k (filter (λ kv. p kv.1) m) ≡ none
  unfolding lookup
  lookup-filter-none k [] h = refl
  lookup-filter-none k ((j, w) ∷ m) h = ground (arith, lookup-filter-none k m)

  pub lookup-filter :
      (k : Text) (m : Map V)
      → UniqueKeys m
      → lookup k (filter (λ kv. p kv.1) m) ≡ only p (lookup k m)
  unfolding lookup
  lookup-filter k [] u = refl
  lookup-filter k ((j, w) ∷ m) u = ground (
    arith,
    text_eq_iff j k,
    lookup-filter-none j m u.0,
    lookup-filter-none k m,
    lookup-filter k m u.1,
  )

  pub filter-UniqueKeys : (m : Map V) → UniqueKeys m → UniqueKeys (filter (λ kv. p kv.1) m)
  filter-UniqueKeys [] u = tt
  filter-UniqueKeys ((j, w) ∷ m) u =
      ground (arith, lookup-filter-none j m u.0, filter-UniqueKeys m u.1)
