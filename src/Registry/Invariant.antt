-- ===== src/Registry/Invariant.antt =====
-- internal/directory/registry.go: what every reachable registry satisfies.
use a2abridge.Prelude.{
  Bool-cases, length, All, filter-All, insert-All, delete-All, filter-UniqueKeys, Text, text_eq,
  UniqueKeys, insert-UniqueKeys, delete-UniqueKeys, ℕ, ◌%◌, ◌≡◌, refl, inl, inr, true, Option, none,
  some, List, [], ◌∷◌,
}
use a2abridge.Metrics.{int64_mod, set_peers}
use a2abridge.Registry.Defs.{
  Entry, Registry, empty_registry, register, unregister, is_alive, collect, Parser, valid_agent_url,
  Request, healthz, metrics_text, agents, registers, unregisters, heartbeat, refresh, leave, serve,
  Event, asks, ticks, happen, happen_all,
}

pub record IsSound (parse : Parser) (r : Registry) : Type 0 where
  pub unique : UniqueKeys r.entries
  pub valid : All (λ kv. (kv.1.url ≡ kv.0) × (valid_agent_url parse kv.0 ≡ true)) r.entries
  pub gauge : r.metrics.current_peers ≡ length r.entries % int64_mod

module _ (parse : Parser) where
  abbrev Filed : Text × Entry → Type 0
  Filed kv = (kv.1.url ≡ kv.0) × (valid_agent_url parse kv.0 ≡ true)

  refresh-IsSound :
      (now : ℕ) (body : Option Text) (r : Registry)
      → IsSound parse r
      → IsSound parse (refresh parse now body r).0
  unfolding refresh register set_peers
  refresh-IsSound now none r h = h
  refresh-IsSound now (some url) r h = elim (Bool-cases (valid_agent_url parse url)) [
    | inr e ↦ rw e h
    | inl e ↦ rw e (record {
      unique = insert-UniqueKeys url _ r.entries h.unique;
      valid = insert-All Filed url _ r.entries (refl, e) h.valid;
      gauge = refl;
    })
  ]

  leave-IsSound :
      (body : Option Text) (r : Registry) → IsSound parse r → IsSound parse (leave body r).0
  unfolding leave unregister set_peers
  leave-IsSound none r h = h
  leave-IsSound (some url) r h = elim (Bool-cases (text_eq url [])) [
    | inl e ↦ rw e h
    | inr e ↦ rw e (record {
      unique = delete-UniqueKeys url r.entries h.unique;
      valid = delete-All Filed url r.entries h.valid;
      gauge = refl;
    })
  ]

  collect-IsSound : (now : ℕ) (r : Registry) → IsSound parse r → IsSound parse (collect now r)
  unfolding collect set_peers
  collect-IsSound now r h = record {
    unique = filter-UniqueKeys (is_alive now) r.entries h.unique;
    valid = filter-All Filed (λ kv. is_alive now kv.1) r.entries h.valid;
    gauge = refl;
  }

  serve-IsSound :
      (now : ℕ) (q : Request) (r : Registry)
      → IsSound parse r
      → IsSound parse (serve parse now q r).0
  unfolding serve
  serve-IsSound now healthz r h = h
  serve-IsSound now metrics_text r h = h
  serve-IsSound now agents r h = h
  serve-IsSound now (registers body) r h = refresh-IsSound now body r h
  serve-IsSound now (unregisters body) r h = leave-IsSound body r h
  serve-IsSound now (heartbeat body) r h = refresh-IsSound now body r h

  pub happen-IsSound :
      (e : Event) (r : Registry) → IsSound parse r → IsSound parse (happen parse e r)
  unfolding happen
  happen-IsSound (asks now q) r h = serve-IsSound now q r h
  happen-IsSound (ticks now) r h = collect-IsSound now r h

  -- Whatever requests the registry serves and whenever its collector runs, from a sound registry:
  -- no url stands twice, every entry is filed under its own url, only absolute http(s) urls with a
  -- host are held, and the peer gauge is the number of entries (as an int64).
  pub happen_all-IsSound :
      (l : List Event) (r : Registry) → IsSound parse r → IsSound parse (happen_all parse l r)
  unfolding happen_all
  happen_all-IsSound [] r h = h
  happen_all-IsSound (e ∷ l) r h = happen_all-IsSound l (happen parse e r) (happen-IsSound e r h)

  pub empty-IsSound : IsSound parse empty_registry
  empty-IsSound = record { unique = tt; valid = tt; gauge = refl }
