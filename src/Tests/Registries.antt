-- ===== src/Tests/Registries.antt =====
-- The theorems on internal/directory/registry.go on a concrete history.
use a2abridge.Prelude.{codes, lookup, ◌≡◌, none, some, List, [], ◌∷◌}
use a2abridge.Registry.Defs.{
  empty_registry, Parser, agents, registers, unregisters, Event, asks, ticks, happen_all,
}
use a2abridge.Registry.Invariant.{IsSound, happen_all-IsSound, empty-IsSound}
use a2abridge.Registry.Listed.{cell_run, cell, happen_all-cell}

-- A parser that takes every text for the host of an http url.
abbrev parse_host : Parser
parse_host raw = some (codes "http", raw)

abbrev history : List Event
history =
    asks 5 (registers (some (codes "alice")))
    ∷ asks 7 (registers (some (codes "bob")))
    ∷ ticks 9
    ∷ asks 10 (unregisters (some (codes "bob")))
    ∷ asks 11 agents
    ∷ []

happen_all-IsSound_example : IsSound parse_host (happen_all parse_host history empty_registry)
happen_all-IsSound_example =
    happen_all-IsSound parse_host history empty_registry (empty-IsSound parse_host)

happen_all-cell_example :
    cell (codes "alice") (happen_all parse_host history empty_registry)
    ≡ cell_run parse_host (codes "alice") history none
unfolding lookup
happen_all-cell_example =
    happen_all-cell parse_host (codes "alice") history empty_registry (empty-IsSound parse_host)
