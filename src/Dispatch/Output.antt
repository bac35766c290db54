-- ===== src/Dispatch/Output.antt =====
-- codebridge/dispatch/output.py: what `DispatchOutputHandler` sends. Each method is the list of the
-- messages that it hands to `sink.send`, in their order.
use pycodebridge.Base.{
  ℕ, ◌-◌, max, ltb, ◌==◌, Bool, not, ◌||◌, List, [], ◌∷◌, ◌++◌, keep, map, length, if◌then◌else◌,
}
use pycodebridge.Base.Text.{Text, str, text_eq, is_empty, strip, join}
use pycodebridge.Base.Decimal.{show}
use pycodebridge.Util.Chunk.{chunk_text, newline}

pub record AgentResult : Type 0 where
  pub agent : Text
  pub success : Bool
  pub branch : Text
  pub files_changed : ℕ
  pub summary : Text
  pub error : Text

-- The mode as `__init__` keeps it; `lower` is `str.lower`.
pub mode_of : (Text → Text) → Text → Text
mode_of lower output_mode = lower (strip (if is_empty output_mode then str "both" else output_mode))

unfoldable pub emoji : Text → Text
emoji agent =
    if text_eq agent (str "codex")
    then str "⚙"
    else if text_eq agent (str "claude")
    then str "🧠"
    else if text_eq agent (str "gemini")
    then str "✨"
    else str "🤖"

abbrev pub per_agent : Text → Bool
per_agent mode = text_eq mode (str "per_agent") || text_eq mode (str "both")

abbrev pub aggregate : Text → Bool
aggregate mode = text_eq mode (str "aggregate") || text_eq mode (str "both")

pub on_agent_start : Text → Text → List Text
on_agent_start mode agent =
    if per_agent mode then (emoji agent ++ str " @" ++ agent ++ str " running…") ∷ [] else []

abbrev done_line : AgentResult → Text
done_line r =
    let changed =
      (if r.files_changed == 0
        then []
        else str " — " ++ show r.files_changed ++ str " file(s) changed") in
    str "✅ " ++ emoji r.agent ++ str " @" ++ r.agent ++ str " done" ++ changed

abbrev failed_line : AgentResult → Text
failed_line r =
    let err = (if is_empty r.error then [] else str ": " ++ r.error) in
    str "❌ " ++ emoji r.agent ++ str " @" ++ r.agent ++ str " failed" ++ err

pub on_agent_done : Text → AgentResult → List Text
on_agent_done mode r =
    if per_agent mode then (if r.success then done_line r else failed_line r) ∷ [] else []

abbrev pub prefix_of : Text → Text
prefix_of agent = emoji agent ++ str " @" ++ agent ++ str ": "

-- The room that a message leaves for a chunk.
abbrev pub limit_of : Text → ℕ → ℕ
limit_of agent max_chars =
    if ltb (length (prefix_of agent)) max_chars
    then max 1 (max_chars - length (prefix_of agent))
    else max_chars

unfoldable pub on_agent_output : Text → Text → Text → ℕ → List Text
on_agent_output mode agent text max_chars =
    if not (per_agent mode) || is_empty (strip text)
    then []
    else map (λ chunk. prefix_of agent ++ chunk)
        (chunk_text (strip text) (limit_of agent max_chars))

abbrev result_line : AgentResult → Text
result_line r =
    let detail =
      (if r.files_changed == 0
        then str "done"
        else show r.files_changed ++ str " file(s) changed") in
    let err = (if is_empty r.error then [] else str " (" ++ r.error ++ str ")") in
    if r.success
    then str "• " ++ emoji r.agent ++ str " @" ++ r.agent ++ str " — " ++ detail
    else str "• ❌ @" ++ r.agent ++ str " — failed" ++ err

pub on_all_done : Text → List AgentResult → List Text
on_all_done mode results =
    let succeeded = length (keep (λ r. r.success) results) in
    let head =
      str "**Dispatch complete** — "
      ++ show succeeded
      ++ str "/"
      ++ show (length results)
      ++ str " agent(s) succeeded" in
    let hint = str "Run `!c done` to open a PR, or `!c done --merge` to merge locally." in
    if aggregate mode
    then join (newline ∷ []) (head ∷ map result_line results ++ [] ∷ hint ∷ []) ∷ []
    else []
