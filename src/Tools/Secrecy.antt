-- ===== src/Tools/Secrecy.antt =====
-- internal/agent/mcp.go: no tool lets a secret out.
use a2abridge.Prelude.{
  All, Text, ℕ, ◌≡◌, refl, ap, ◌∙◌, ◌≢◌, Bool, not, Option, none, some, List, [], ◌∷◌, arith,
}
use a2abridge.Security.Screen.{IsPattern, Match, screen, format_matches}
use a2abridge.Security.Masking.{
  match_names, Masked, SameScreened, screen-Masked, format_matches_same, screen-none,
}
use a2abridge.Store.Entry.{Store, WriteResult}
use a2abridge.Executor.Defs.{Executor, Error, complete_task}
use a2abridge.Tools.Data.{Client, Deps, SendArgs, collect_events, count_sent, completed}
use a2abridge.Tools.Defs.{
  outbound_message, after_send, send_to, send_from, send_message, after_stream, stream_to,
  send_streaming, notice, after_complete, complete_screened, complete_tool,
}

module _ (d : Deps) where
  outbound_same :
      (context tid : Text) (a b : Text × List Match)
      → SameScreened a b
      → outbound_message d context tid a ≡ outbound_message d context tid b
  unfolding outbound_message
  outbound_same context tid (s, []) (t, []) e = ap (λ u. outbound_message d context tid (u, [])) e.0
  outbound_same context tid (s, []) (t, m ∷ l) e = absurd (grind arith)
  outbound_same context tid (s, m ∷ k) (t, []) e = absurd (grind arith)
  outbound_same context tid (s, m ∷ k) (t, n ∷ l) e =
      ap (λ u. outbound_message d context tid (u, m ∷ k)) e.0
      ∙ ap (λ x. record (outbound_message d context tid (t, m ∷ k)) { redactions = some x })
          (format_matches_same (m ∷ k) (n ∷ l) e.1)

  notice_same : (k l : List Match) → match_names k ≡ match_names l → notice d k ≡ notice d l
  notice_same [] [] e = refl
  notice_same [] (m ∷ l) e = absurd (grind arith)
  notice_same (m ∷ k) [] e = absurd (grind arith)
  notice_same (m ∷ k) (n ∷ l) e = ap some (format_matches_same (m ∷ k) (n ∷ l) e)

  after_complete_same :
      (k l : List Match) (p : Executor × Option Error)
      → match_names k ≡ match_names l
      → after_complete d k p ≡ after_complete d l p
  unfolding after_complete
  after_complete_same k l (x, some e) h = refl
  after_complete_same k l (x, none) h =
      ap (λ n. (record x { store = count_sent x.store }, completed n)) (notice_same k l h)

module _ (d : Deps) (s t : Text)
    (e : SameScreened (screen d.patterns s) (screen d.patterns t)) where
  -- The arguments' ids and flags are all that `send_to` reads of them.
  send_same :
      (w : WriteResult) (now : ℕ) (args : SendArgs) (url : Option Text) (st : Store)
      → send_from d w now (record args { text = some s }) url (some s) st
        ≡ send_from d w now (record args { text = some t }) url (some t) st
  unfolding send_from send_to
  send_same w now args none st = refl
  send_same w now args (some url) st = go (d.client url)
    where
      go :
          (c : Option Client)
          → send_to d w now (record args { text = some s }) url (screen d.patterns s) c st
            ≡ send_to d w now (record args { text = some t }) url (screen d.patterns t) c st
      go none = refl
      go (some c) =
          ap
            (λ u.
              after_send d w now url c.name u
                (c.send (outbound_message d args.context_id args.task_id (screen d.patterns s))
                  (not args.blocking))
                st)
            e.0
          ∙ ap
              (λ m.
                after_send d w now url c.name (screen d.patterns t).0 (c.send m (not args.blocking))
                  st)
              (outbound_same d args.context_id args.task_id (screen d.patterns s)
                (screen d.patterns t) e)

  stream_same :
      (deadline : Bool) (url : Option Text) (st : Store)
      → send_streaming d deadline url (some s) st ≡ send_streaming d deadline url (some t) st
  unfolding send_streaming stream_to
  stream_same deadline none st = refl
  stream_same deadline (some url) st = go (d.client url)
    where
      go :
          (c : Option Client)
          → stream_to d deadline (screen d.patterns s) c st
            ≡ stream_to d deadline (screen d.patterns t) c st
      go none = refl
      go (some c) =
          ap (λ m. after_stream d deadline (collect_events d.states (c.stream m)) st)
            (outbound_same d [] [] (screen d.patterns s) (screen d.patterns t) e)

  complete_same :
      (w : WriteResult) (id : Text) (x : Executor)
      → complete_tool d w (some id) (some s) x ≡ complete_tool d w (some id) (some t) x
  unfolding complete_tool complete_screened
  complete_same w id x =
      ap (λ u. after_complete d (screen d.patterns s).1 (complete_task d.env d.states w id u x)) e.0
      ∙ after_complete_same d (screen d.patterns s).1 (screen d.patterns t).1
          (complete_task d.env d.states w id (screen d.patterns t).0 x) e.1

module _ (d : Deps) where
  -- Texts that differ only in secrets, whatever the secrets and their lengths, are told apart by none
  -- of the tools that send: a2a_send_message, a2a_send_streaming and a2a_complete_task send the same,
  -- store the same and return the same, whatever the peers answer.
  pub tools-Masked :
      (w : WriteResult) (now : ℕ) (deadline : Bool) (args : SendArgs) (s t : Text) (x : Executor)
      → s ≢ []
      → t ≢ []
      → Masked d.patterns s t
      → (send_message d w now (record args { text = some s }) x.store
          ≡ send_message d w now (record args { text = some t }) x.store)
        × (send_streaming d deadline args.peer_url (some s) x.store
            ≡ send_streaming d deadline args.peer_url (some t) x.store)
        × (complete_tool d w (some args.task_id) (some s) x
            ≡ complete_tool d w (some args.task_id) (some t) x)
  unfolding send_message
  tools-Masked w now deadline args s t x g h m =
      let e = screen-Masked d.patterns s t g h m in
      (
        send_same d s t e w now args args.peer_url x.store,
        stream_same d s t e deadline args.peer_url x.store,
        complete_same d s t e w args.task_id x,
      )

  -- A message that names no redaction has the text that the host gave.
  pub outbound_message_verbatim :
      (context tid text : Text)
      → All IsPattern d.patterns
      → (outbound_message d context tid (screen d.patterns text)).redactions ≡ none
      → (outbound_message d context tid (screen d.patterns text)).text ≡ text
  unfolding outbound_message
  outbound_message_verbatim context tid text h e =
      screen-none d.patterns text h (go (screen d.patterns text).1 e)
    where
      go :
          (hits : List Match)
          → (elim hits as (λ x. Option Text) [
            | [] ↦ none
            | m ∷ ms ↦ some (format_matches (m ∷ ms))
          ])
            ≡ none
          → hits ≡ []
      go [] k = refl
      go (m ∷ ms) k = absurd (grind arith)
