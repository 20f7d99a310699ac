-- ===== src/Tools/Timeline.antt =====
-- internal/agent/mcp.go, Heartbeat, with internal/directory/registry.go: when the requests of the
-- heartbeat arrive at the directory, and what else happens there.
use a2abridge.Prelude.{
  ltb, if◌then◌else◌, All, Text, text_eq, ℕ, ◌+◌, ◌*◌, ◌≡◌, Bool, true, not, ◌&&◌, some, List, [],
  ◌∷◌, ◌++◌,
}
use a2abridge.Registry.Defs.{Request, registers, unregisters, heartbeat, Event, asks, ticks}

-- 30 * time.Second
abbrev pub period : ℕ
period = 30 * 1_000_000_000

-- directoryRequestTimeout
abbrev pub request_timeout : ℕ
request_timeout = 5 * 1_000_000_000

-- One period of the ticker: whether its request arrives, when after the period's start, and what else
-- happens at the directory before and after that.
pub record Period : Type 0 where
  pub delivered : Bool
  pub delay : ℕ
  pub before : List Event
  pub after : List Event

-- What happens at the directory: the i-th request in the i-th period.
abbrev pub arrival : ℕ → Period → Request → List Event
arrival start r q = if r.delivered then asks (start + r.delay) q ∷ [] else []

abbrev pub timeline : ℕ → List Request → List Period → List Event
timeline start (q ∷ qs) (r ∷ rs) =
    r.before ++ (arrival start r q ++ (r.after ++ timeline (start + period) qs rs))
timeline start [] rs = []
timeline start (q ∷ qs) [] = []

-- The same from the registration on, with what else happens up to the first tick, one period after
-- the ticker's start.
abbrev pub history : ℕ → ℕ → List Event → List Request → List Period → List Event
history registered start quiet [] rs = quiet
history registered start quiet (q ∷ qs) rs =
    asks registered q ∷ (quiet ++ timeline (start + period) qs rs)

-- Whether a request is no agent's but another's.
abbrev pub about_other : Text → Request → Bool
about_other url (registers (some u)) = not (text_eq u url)
about_other url (unregisters (some u)) = not (text_eq u url)
about_other url (heartbeat (some u)) = not (text_eq u url)
about_other url _ = true

-- An event of others: another agent's request, or a collection within the period.
abbrev pub is_foreign : Text → ℕ → Event → Bool
is_foreign url limit (asks now q) = about_other url q
is_foreign url limit (ticks now) = ltb now limit

abbrev pub AreForeign : Text → ℕ → List Period → Type 0
AreForeign url start [] = Unit
AreForeign url start (r ∷ rs) =
    All (λ e. is_foreign url (start + period) e ≡ true) r.before
    × All (λ e. is_foreign url (start + period) e ≡ true) r.after
    × AreForeign url (start + period) rs

-- At most two requests in a row are lost.
abbrev pub rarely_lost : ℕ → List Period → Bool
rarely_lost k [] = true
rarely_lost k (r ∷ rs) = if r.delivered then rarely_lost 0 rs else ltb k 2 && rarely_lost (k + 1) rs
