-- ===== src/Card.antt =====
-- internal/agent/cardcache.go: the conditional requests for the Agent Card.
use a2abridge.Prelude.{
  if◌then◌else◌, Text, codes, text_eq, ℕ, ◌*◌, Bool, false, ◌||◌, List, [], ◌∷◌, ◌++◌,
}
use a2abridge.Strings.{trim_space, split}
use a2abridge.Strings.Words.{trim_prefix}
use a2abridge.Numbers.{itoa}

-- The loop over the header's candidates.
unfoldable pub any_matches : Text → List Text → Bool
unfolding trim_space trim_prefix
any_matches etag [] = false
any_matches etag (candidate ∷ l) =
    let c = trim_space candidate in
    text_eq c (codes "*") || (text_eq (trim_prefix c (codes "W/")) etag || any_matches etag l)

-- `etagMatches`
unfoldable pub etag_matches : Text → Text → Bool
unfolding any_matches split
etag_matches [] etag = false
etag_matches (c ∷ header) etag = any_matches etag (split b',' (c ∷ header))

-- agentCardMaxAge, in seconds
abbrev pub agent_card_max_age : ℕ
agent_card_max_age = 5 * 60

pub record Headers : Type 0 where
  pub cache_control : Text
  pub etag : Text
  pub last_modified : Text

-- What the handler does: the SDK's static handler for the method, without headers of ours; a status
-- 304; or the static handler for a GET, with our headers.
pub data CardAnswer : Type 0 where
  passed_on : Text → CardAnswer
  not_modified : Headers → CardAnswer
  served : Headers → CardAnswer

-- The quoted digest of the card's bytes.
abbrev pub etag_of : (Text → Text) → Text → Text
etag_of sha256_hex body = 0x22 ∷ (sha256_hex body ++ 0x22 ∷ [])

unfoldable pub card_headers : (Text → Text) → Text → Text → Headers
unfolding itoa
card_headers sha256_hex last_modified body = record {
  cache_control = codes "public, max-age=" ++ itoa agent_card_max_age;
  etag = etag_of sha256_hex body;
  last_modified = last_modified;
}

-- The handler of `newAgentCardHandler`, by the request's method and If-None-Match.
unfoldable pub agent_card : Headers → Text → Text → CardAnswer
unfolding etag_matches
agent_card h method if_none_match =
    if text_eq method (codes "GET") || text_eq method (codes "HEAD")
    then (if etag_matches if_none_match h.etag then not_modified h else served h)
    else passed_on method
