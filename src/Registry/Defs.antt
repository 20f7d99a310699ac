-- ===== src/Registry/Defs.antt =====
-- internal/directory/registry.go: the registry's entries and its handlers. A handler gets its
-- request decoded; the JSON decoder and url.Parse are not under this repository.
use a2abridge.Prelude.{
  leb, if◌then◌else◌, length, filter, Text, codes, text_eq, Map, insert, delete, ℕ, ◌+◌, ◌*◌, Bool,
  false, not, ◌&&◌, ◌||◌, Option, none, some, List, [], ◌∷◌, map,
}
use a2abridge.Metrics.{Metrics, set_peers, zeros}

-- 90 * time.Second, in nanoseconds
abbrev pub registry_ttl : ℕ
registry_ttl = 90 * 1_000_000_000

pub record Entry : Type 0 where
  pub url : Text
  pub last_seen : ℕ

pub record Registry : Type 0 where
  pub entries : Map Entry
  pub metrics : Metrics

-- `New`
abbrev pub empty_registry : Registry
empty_registry = record { entries = []; metrics = zeros }

abbrev pub with_entries : Map Entry → Registry → Registry
with_entries m r = record { entries = m; metrics = set_peers (length m) r.metrics }

unfoldable pub register : ℕ → Text → Registry → Registry
unfolding set_peers
register now url r = with_entries (insert url (record { url = url; last_seen = now }) r.entries) r

unfoldable pub unregister : Text → Registry → Registry
unfolding set_peers
unregister url r = with_entries (delete url r.entries) r

-- Whether an entry survives the tick of `gc` at a time.
unfoldable pub is_alive : ℕ → Entry → Bool
is_alive now e = leb now (e.last_seen + registry_ttl)

-- One tick of `gc`.
unfoldable pub collect : ℕ → Registry → Registry
unfolding is_alive set_peers
collect now r = with_entries (filter (λ kv. is_alive now kv.1) r.entries) r

unfoldable pub list : Registry → List Entry
list r = map (λ kv. kv.1) r.entries

-- What `url.Parse` makes of a text: the scheme and the host.
abbrev pub Parser : Type 0
Parser = Text → Option (Text × Text)

unfoldable pub valid_agent_url : Parser → Text → Bool
valid_agent_url parse raw = elim (parse raw) [
  | none ↦ false
  | some (scheme, host) ↦
      (text_eq scheme (codes "http") || text_eq scheme (codes "https")) && not (text_eq host [])
]

-- A request of a route; a body is the url that it decodes to, none where it does not decode.
pub data Request : Type 0 where
  healthz metrics_text agents : Request
  registers : Option Text → Request
  unregisters : Option Text → Request
  heartbeat : Option Text → Request

pub data Response : Type 0 where
  healthy counters no_content bad_request : Response
  listing : List Entry → Response

unfoldable pub refresh : Parser → ℕ → Option Text → Registry → Registry × Response
unfolding register valid_agent_url
refresh parse now none r = (r, bad_request)
refresh parse now (some url) r =
    if valid_agent_url parse url then (register now url r, no_content) else (r, bad_request)

unfoldable pub leave : Option Text → Registry → Registry × Response
unfolding unregister
leave none r = (r, bad_request)
leave (some url) r = if text_eq url [] then (r, bad_request) else (unregister url r, no_content)

-- `Routes`
unfoldable pub serve : Parser → ℕ → Request → Registry → Registry × Response
unfolding refresh leave list
serve parse now healthz r = (r, healthy)
serve parse now metrics_text r = (r, counters)
serve parse now agents r = (r, listing (list r))
serve parse now (registers body) r = refresh parse now body r
serve parse now (unregisters body) r = leave body r
serve parse now (heartbeat body) r = refresh parse now body r

-- What happens to a registry: a request, or a tick of gc, each with its time.
pub data Event : Type 0 where
  asks : ℕ → Request → Event
  ticks : ℕ → Event

unfoldable pub happen : Parser → Event → Registry → Registry
unfolding serve collect
happen parse (asks now q) r = (serve parse now q r).0
happen parse (ticks now) r = collect now r

unfoldable pub happen_all : Parser → List Event → Registry → Registry
unfolding happen
happen_all parse [] r = r
happen_all parse (e ∷ l) r = happen_all parse l (happen parse e r)
