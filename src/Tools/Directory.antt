-- ===== src/Tools/Directory.antt =====
-- internal/agent/mcp.go: listPeers and Heartbeat. A card is kept as a text.
use a2abridge.Prelude.{
  ◌==◌, if◌then◌else◌, get_elem?, filter, Text, codes, text_eq, ℕ, zero, suc, not, Option, none,
  some, List, [], ◌∷◌, ◌++◌, map,
}
use a2abridge.Strings.Words.{trim_right_rune}
use a2abridge.Registry.Defs.{Request, registers, unregisters, heartbeat}

-- `PeerInfo`: the url with the card, or with the error of its resolution.
pub record PeerInfo : Type 0 where
  pub url : Text
  pub card : Option Text
  pub error : Option Text

-- `PeerInfo{}`, as the result starts out.
abbrev pub blank : PeerInfo
blank = record { url = []; card = none; error = none }

-- What resolving a card gives: an error's text, or the card.
pub data Resolved : Type 0 where
  unresolved : Text → Resolved
  resolved : Text → Resolved

abbrev pub peer_info : Text → Resolved → PeerInfo
peer_info url (unresolved e) = record { url = url; card = none; error = some e }
peer_info url (resolved c) = record { url = url; card = some c; error = none }

-- l[i] = x
unfoldable pub set_at {ℓ} : {A : Type ℓ} → ℕ → A → List A → List A
set_at i x [] = []
set_at zero x (y ∷ l) = x ∷ l
set_at (suc i) x (y ∷ l) = y ∷ set_at i x l

abbrev pub other_urls : Text → List Text → List Text
other_urls self = filter (λ u. not (text_eq u self))

module _ (resolve : Text → Resolved) where
  -- The goroutine of one index, for the url there.
  abbrev pub write_info : ℕ → Option Text → List PeerInfo → List PeerInfo
  write_info i none out = out
  write_info i (some u) out = set_at i (peer_info u (resolve u)) out

  -- The goroutines in the order in which they write.
  unfoldable pub fan_out : List Text → List ℕ → List PeerInfo → List PeerInfo
  unfolding set_at
  fan_out urls [] out = out
  fan_out urls (i ∷ schedule) out = fan_out urls schedule (write_info i (get_elem? urls i) out)

  unfoldable pub list_urls : List ℕ → List Text → List PeerInfo
  unfolding fan_out
  list_urls schedule urls = fan_out urls schedule (map (λ u. blank) urls)

  -- What the directory answered: none where the request failed, otherwise the status and the urls,
  -- none where the body does not decode.
  unfoldable pub listed_peers :
      List ℕ → Text → Option (ℕ × Option (List Text)) → Option (List PeerInfo)
  unfolding list_urls
  listed_peers schedule self none = none
  listed_peers schedule self (some (status, none)) = none
  listed_peers schedule self (some (status, some urls)) =
      if status == 200 then some (list_urls schedule (other_urls self urls)) else none

  -- `listPeers`, by what a GET of an address answers.
  unfoldable pub list_peers :
      List ℕ → (Text → Option (ℕ × Option (List Text))) → Text → Text → Option (List PeerInfo)
  unfolding listed_peers trim_right_rune
  list_peers schedule get directory self =
      if text_eq directory []
      then none
      else listed_peers schedule self (get (trim_right_rune b'/' directory ++ codes "/agents"))

-- What the select of `Heartbeat` receives: a tick, or the end of the context.
pub data Signal : Type 0 where
  tick : Signal
  done : Signal

unfoldable pub heartbeat_loop : Text → List Signal → List Request
heartbeat_loop url [] = []
heartbeat_loop url (tick ∷ l) = heartbeat (some url) ∷ heartbeat_loop url l
heartbeat_loop url (done ∷ l) = unregisters (some url) ∷ []

-- `Heartbeat`, by the requests that it sends; their answers are ignored.
unfoldable pub heartbeats : Text → List Signal → List Request
unfolding heartbeat_loop
heartbeats url signals = registers (some url) ∷ heartbeat_loop url signals
