-- ===== src/Registry/Listed.antt =====
-- internal/directory/registry.go: when an agent is listed. The registry is compared with one cell
-- for one agent: the time it was last seen, if it is listed.
use a2abridge.Prelude.{
  leb, if◌then◌else◌, only, lookup-filter, Text, text_eq, lookup, lookup-insert, lookup-delete, ℕ,
  ◌+◌, ◌≡◌, refl, ap, ◌∙◌, not, ◌&&◌, Option, none, some, List, [], ◌∷◌, arith,
}
use a2abridge.Registry.Defs.{
  registry_ttl, Entry, Registry, register, unregister, is_alive, collect, Parser, valid_agent_url,
  healthz, metrics_text, agents, registers, unregisters, heartbeat, refresh, leave, serve, Event,
  asks, ticks, happen, happen_all,
}
use a2abridge.Registry.Invariant.{IsSound, happen-IsSound}

module _ (parse : Parser) (url : Text) where
  abbrev seen : ℕ → Option Text → Option ℕ → Option ℕ
  seen now none o = o
  seen now (some u) o = if valid_agent_url parse u && text_eq u url then some now else o

  abbrev left : Option Text → Option ℕ → Option ℕ
  left none o = o
  left (some u) o = if not (text_eq u []) && text_eq u url then none else o

  -- What one event does to the cell: a registration and a heartbeat of the agent set it, its
  -- unregistration clears it, and a tick clears it when it is more than 90 seconds old.
  unfoldable pub cell_step : Event → Option ℕ → Option ℕ
  cell_step (asks now (registers body)) o = seen now body o
  cell_step (asks now (heartbeat body)) o = seen now body o
  cell_step (asks now (unregisters body)) o = left body o
  cell_step (asks now healthz) o = o
  cell_step (asks now metrics_text) o = o
  cell_step (asks now agents) o = o
  cell_step (ticks now) o = only (λ t. leb now (t + registry_ttl)) o

  unfoldable pub cell_run : List Event → Option ℕ → Option ℕ
  cell_run [] o = o
  cell_run (e ∷ l) o = cell_run l (cell_step e o)

abbrev pub time_of : Option Entry → Option ℕ
time_of none = none
time_of (some e) = some e.last_seen

-- The cell of an agent in a registry.
abbrev pub cell : Text → Registry → Option ℕ
cell url r = time_of (lookup url r.entries)

module _ (parse : Parser) (url : Text) where
  refresh-cell :
      (now : ℕ) (body : Option Text) (r : Registry)
      → cell url (refresh parse now body r).0
        ≡ cell_step parse url (asks now (registers body)) (cell url r)
  unfolding refresh register cell_step
  refresh-cell now none r = refl
  refresh-cell now (some u) r =
      ground (arith, lookup-insert u url (record { url = u; last_seen = now }) r.entries)

  leave-cell :
      (now : ℕ) (body : Option Text) (r : Registry)
      → cell url (leave body r).0 ≡ cell_step parse url (asks now (unregisters body)) (cell url r)
  unfolding leave unregister cell_step
  leave-cell now none r = refl
  leave-cell now (some u) r = ground (arith, lookup-delete u url r.entries)

  time_of-only :
      (now : ℕ) (o : Option Entry)
      → time_of (only (is_alive now) o) ≡ only (λ t. leb now (t + registry_ttl)) (time_of o)
  unfolding is_alive
  time_of-only now none = refl
  time_of-only now (some e) = ground arith

  happen-cell :
      (e : Event) (r : Registry)
      → IsSound parse r
      → cell url (happen parse e r) ≡ cell_step parse url e (cell url r)
  unfolding happen serve collect cell_step
  happen-cell (asks now (registers body)) r h = refresh-cell now body r
  happen-cell (asks now (heartbeat body)) r h = refresh-cell now body r
  happen-cell (asks now (unregisters body)) r h = leave-cell now body r
  happen-cell (asks now healthz) r h = refl
  happen-cell (asks now metrics_text) r h = refl
  happen-cell (asks now agents) r h = refl
  happen-cell (ticks now) r h =
      ap time_of (lookup-filter (is_alive now) url r.entries h.unique)
      ∙ time_of-only now (lookup url r.entries)

  -- After any requests and collections, an agent is in the registry exactly when its own events say
  -- so: its last valid registration or heartbeat was not followed by its unregistration, nor by a
  -- collection more than 90 seconds later; and its entry has the time of that last event. What other
  -- agents do has no effect on it.
  pub happen_all-cell :
      (l : List Event) (r : Registry)
      → IsSound parse r
      → cell url (happen_all parse l r) ≡ cell_run parse url l (cell url r)
  unfolding happen_all cell_run
  happen_all-cell [] r h = refl
  happen_all-cell (e ∷ l) r h =
      happen_all-cell l (happen parse e r) (happen-IsSound parse e r h)
      ∙ ap (cell_run parse url l) (happen-cell e r h)
