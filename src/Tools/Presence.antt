-- ===== src/Tools/Presence.antt =====
-- internal/agent/mcp.go, Heartbeat, with internal/directory/registry.go: how the heartbeat keeps the
-- agent listed.
use a2abridge.Registry.Invariant.{IsSound}
use a2abridge.Tools.Directory.{tick, heartbeat_loop, heartbeats}
use a2abridge.Prelude.{
  if◌then◌else◌, Bool-cases, is_some, All, Text, text_eq, text_eq_refl, ℕ, ◌+◌, ◌*◌, ◌≤◌, ◌<◌, ◌≡◌,
  refl, ap, ◌∙◌, inl, inr, true, false, not, ◌&&◌, Option, none, some, List, [], ◌∷◌, ◌++◌, map,
  arith,
}
use a2abridge.Registry.Defs.{
  registry_ttl, Registry, Parser, valid_agent_url, Request, healthz, metrics_text, agents,
  registers, unregisters, heartbeat, Event, asks, ticks, happen_all,
}
use a2abridge.Registry.Listed.{cell_step, cell_run, cell, happen_all-cell}
use a2abridge.Tools.Timeline.{
  period, request_timeout, Period, arrival, timeline, history, is_foreign, AreForeign, rarely_lost,
}

module _ (parse : Parser) (url : Text) where
  cell_run-append :
      (k l : List Event) (o : Option ℕ)
      → cell_run parse url (k ++ l) o ≡ cell_run parse url l (cell_run parse url k o)
  unfolding cell_run
  cell_run-append [] l o = refl
  cell_run-append (e ∷ k) l o = cell_run-append k l (cell_step parse url e o)

  seen_other :
      (now : ℕ) (u : Text) (o : Option ℕ)
      → not (text_eq u url) ≡ true
      → (if valid_agent_url parse u && text_eq u url then some now else o) ≡ o
  seen_other now u o h = ground (arith, h)

  foreign_step :
      (limit t : ℕ) (e : Event)
      → is_foreign url limit e ≡ true
      → limit ≤ t + registry_ttl
      → cell_step parse url e (some t) ≡ some t
  unfolding cell_step
  foreign_step limit t (asks now (registers (some u))) h k = seen_other now u (some t) h
  foreign_step limit t (asks now (heartbeat (some u))) h k = seen_other now u (some t) h
  foreign_step limit t (asks now (unregisters (some u))) h k = ground (arith, h)
  foreign_step limit t (asks now (registers none)) h k = refl
  foreign_step limit t (asks now (heartbeat none)) h k = refl
  foreign_step limit t (asks now (unregisters none)) h k = refl
  foreign_step limit t (asks now healthz) h k = refl
  foreign_step limit t (asks now metrics_text) h k = refl
  foreign_step limit t (asks now agents) h k = refl
  foreign_step limit t (ticks now) h k = ground (arith, h, k)

  foreign_run :
      (limit t : ℕ) (l : List Event)
      → All (λ e. is_foreign url limit e ≡ true) l
      → limit ≤ t + registry_ttl
      → cell_run parse url l (some t) ≡ some t
  unfolding cell_run
  foreign_run limit t [] h k = refl
  foreign_run limit t (e ∷ l) h k =
      ap (cell_run parse url l) (foreign_step limit t e h.0 k) ∙ foreign_run limit t l h.1 k

  -- A request of the agent's that puts it on the list.
  abbrev Refreshes : Request → Type 0
  Refreshes q = (now : ℕ) (o : Option ℕ) → cell_step parse url (asks now q) o ≡ some now

  registers-Refreshes : valid_agent_url parse url ≡ true → Refreshes (registers (some url))
  unfolding cell_step
  registers-Refreshes h now o = rw (h, text_eq_refl url) refl

  heartbeat-Refreshes : valid_agent_url parse url ≡ true → Refreshes (heartbeat (some url))
  unfolding cell_step
  heartbeat-Refreshes h now o = rw (h, text_eq_refl url) refl

  round_run :
      (a b c : List Event) (o : Option ℕ)
      → cell_run parse url (a ++ (b ++ c)) o
        ≡ cell_run parse url c (cell_run parse url b (cell_run parse url a o))
  round_run a b c o = cell_run-append a (b ++ c) o ∙ cell_run-append b c (cell_run parse url a o)

  -- The end of a period whose request arrives, and of one whose request is lost.
  arrived :
      (start : ℕ) (r : Period) (q : Request) (rest : List Event) (o : Option ℕ)
      → r.delivered ≡ true
      → Refreshes q
      → All (λ e. is_foreign url (start + period) e ≡ true) r.after
      → cell_run parse url (r.before ++ (arrival start r q ++ (r.after ++ rest))) o
        ≡ cell_run parse url rest (some (start + r.delay))
  unfolding cell_run
  arrived start r q rest o h k f =
      round_run r.before (arrival start r q) (r.after ++ rest) o
      ∙ cell_run-append r.after rest _
      ∙ ap (λ x. cell_run parse url rest (cell_run parse url r.after x))
          (rw h (k (start + r.delay) (cell_run parse url r.before o)))
      ∙ ap (cell_run parse url rest)
          (foreign_run (start + period) (start + r.delay) r.after f (omega arith))

  lost :
      (start t : ℕ) (r : Period) (q : Request) (rest : List Event)
      → r.delivered ≡ false
      → start + period ≤ t + registry_ttl
      → All (λ e. is_foreign url (start + period) e ≡ true) r.before
      → All (λ e. is_foreign url (start + period) e ≡ true) r.after
      → cell_run parse url (r.before ++ (arrival start r q ++ (r.after ++ rest))) (some t)
        ≡ cell_run parse url rest (some t)
  unfolding cell_run
  lost start t r q rest h k f g =
      round_run r.before (arrival start r q) (r.after ++ rest) (some t)
      ∙ cell_run-append r.after rest _
      ∙ ap
          (λ x.
            cell_run parse url rest
              (cell_run parse url r.after (cell_run parse url (arrival start r q) x)))
          (foreign_run (start + period) t r.before f k)
      ∙ ap (cell_run parse url rest) (rw h (foreign_run (start + period) t r.after g k))

  -- The agent is listed at the end of a timeline of refreshing requests.
  stays :
      (k start t : ℕ) (rs : List Period)
      → valid_agent_url parse url ≡ true
      → start ≤ t + period * (k + 1)
      → k ≤ 2
      → rarely_lost k rs ≡ true
      → AreForeign url start rs
      → is_some (
          cell_run parse url (timeline start (heartbeat_loop url (map (λ r. tick) rs)) rs) (some t))
        ≡ true
  unfolding heartbeat_loop cell_run
  stays k start t [] v s l h f = refl
  stays k start t (r ∷ rs) v s l h f = elim (Bool-cases r.delivered) [
    | inl e ↦
        ap is_some (arrived start r (heartbeat (some url)) _ (some t) e (heartbeat-Refreshes v) f.1)
        ∙ stays 0 (start + period) (start + r.delay) rs v (omega arith) (omega arith)
            (ground (arith, h, e)) f.2
    | inr e ↦
        let few : k < 2 = ground (arith, h, e) in
        ap is_some (lost start t r (heartbeat (some url)) _ e (omega (arith, s, few)) f.0 f.1)
        ∙ stays (k + 1) (start + period) t rs v (omega (arith, s)) (omega (arith, few))
            (ground (arith, h, e)) f.2
  ]

  -- An agent whose registration arrives is listed at the end of every period of its heartbeat's
  -- ticker, for as long as no three heartbeats in a row are lost, nor the first two: whatever other
  -- agents ask of the directory, and whenever its collections run. The ticker starts when the
  -- registration's request ends, at most 5 seconds after it arrived.
  pub heartbeats-listed :
      (registered start : ℕ) (quiet : List Event) (rs : List Period) (reg : Registry)
      → IsSound parse reg
      → valid_agent_url parse url ≡ true
      → start ≤ registered + request_timeout
      → All (λ e. is_foreign url (start + period) e ≡ true) quiet
      → AreForeign url (start + period) rs
      → rarely_lost 1 rs ≡ true
      → is_some (
          cell url (
            happen_all parse
              (history registered start quiet (heartbeats url (map (λ r. tick) rs)) rs)
              reg))
        ≡ true
  unfolding heartbeats cell_run
  heartbeats-listed registered start quiet rs reg sound v s q f h =
      let rest = timeline (start + period) (heartbeat_loop url (map (λ r. tick) rs)) rs in
      ap is_some (
        happen_all-cell parse url (asks registered (registers (some url)) ∷ (quiet ++ rest)) reg
          sound
        ∙ ap (cell_run parse url (quiet ++ rest)) (registers-Refreshes v registered (cell url reg))
        ∙ cell_run-append quiet rest (some registered)
        ∙ ap (cell_run parse url rest)
            (foreign_run (start + period) registered quiet q (omega (arith, s))))
      ∙ stays 1 (start + period) registered rs v (omega (arith, s)) (omega arith) h f
