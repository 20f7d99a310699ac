-- ===== src/Wake/Responder.antt =====
-- internal/agent/responder.go: the answer to an incoming message. The command that is spawned, and the
-- regular expression for the block of codex's output, are parameters.
use a2abridge.Prelude.{
  ltb, if◌then◌else◌, length, take, Text, codes, text_eq, ◌||◌, Option, none, some, List, [], ◌∷◌,
  ◌++◌,
}
use a2abridge.Strings.{trim_space, split}
use a2abridge.Strings.Words.{join, base_or}
use a2abridge.A2a.{States}
use a2abridge.Store.Entry.{InboxEntry, is_synthetic_reply, Env, WriteResult}
use a2abridge.Executor.Defs.{Executor, Error, complete_task}

pub record Responder : Type 0 where
  pub mode : Text
  pub card_name : Text
  pub skills : List Text

abbrev pub quoted : Text → Text
quoted t = 0x22 ∷ (t ++ 0x22 ∷ [])

-- `buildPrompt`
unfoldable pub build_prompt : Responder → Text → Text → Text
unfolding join
build_prompt r sender question =
    let names = if ltb 10 (length r.skills) then take 10 r.skills else r.skills in
    let skills = base_or (codes "generic") (join (codes ",") names) in
    codes "Ты автономный A2A-агент "
    ++ (quoted r.card_name
        ++ (codes " (skills: "
            ++ (skills
                ++ (codes
                      "). Отвечаешь другому агенту кратко и по делу, без markdown-хедеров. Если вопрос вне твоей компетенции — одной строкой скажи об этом."
                    ++ (b'\n' ∷ b'\n' ∷ codes "Вопрос от агента "
                        ++ (quoted sender
                            ++ (codes ":"
                                ++ (b'\n' ∷ question
                                    ++ (b'\n'
                                        ∷ b'\n'
                                        ∷ codes "Ответ (одной порцией, без преамбул):")))))))))

-- The last line that is not blank.
unfoldable pub last_line : List Text → Text
unfolding trim_space
last_line [] = []
last_line (l ∷ ls) = base_or (trim_space l) (last_line ls)

-- `extractCodexAnswer`
unfoldable pub extract_codex_answer : (Text → Option Text) → Text → Text
unfolding last_line trim_space split
extract_codex_answer block s = elim (block s) [
  | some m ↦ trim_space m
  | none ↦ last_line (split b'\n' (trim_space s))
]

-- What `Handle` does besides: the on-error hook, with the task and the sender.
pub data Outcome : Type 0 where
  ignored : Outcome
  empty_reply : Outcome
  on_error : Text → Text → Outcome
  answered : Text → Outcome

module _ (env : Env) (states : States) (r : Responder) where
  abbrev pub after_answer : InboxEntry → Text → Executor × Option Error → Executor × Outcome
  after_answer e reply (x, none) = (x, answered reply)
  after_answer e reply (x, some error) = (x, on_error e.task_id e.sender)

  unfoldable pub give : WriteResult → InboxEntry → Text → Executor → Executor × Outcome
  unfolding complete_task
  give w e [] x = (x, empty_reply)
  give w e (c ∷ reply) x =
      after_answer e (c ∷ reply) (complete_task env states w e.task_id (c ∷ reply) x)

  -- From the spawned command's output on; none is an error.
  unfoldable pub answer : WriteResult → InboxEntry → Option Text → Executor → Executor × Outcome
  unfolding give trim_space
  answer w e none x = (x, on_error e.task_id e.sender)
  answer w e (some out) x = give w e (trim_space out) x

  -- `Handle`
  unfoldable pub respond :
      (Text → Option Text) → WriteResult → InboxEntry → Executor → Executor × Outcome
  unfolding answer build_prompt is_synthetic_reply
  respond run w e x =
      if text_eq r.mode [] || (is_synthetic_reply e || text_eq e.text [])
      then (x, ignored)
      else answer w e (run (build_prompt r e.sender e.text)) x
