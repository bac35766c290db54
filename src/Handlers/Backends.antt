-- ===== src/Handlers/Backends.antt =====
-- The model and the backend of a session, from one state: codebridge/handlers/core.py, with the
-- names of codebridge/agents/factory.py.
use pycodebridge.Base.{Bool, true, not, ◌&&◌, [], ◌∷◌, Option, any, if◌then◌else◌}
use pycodebridge.Base.Text.{Text, str, text_eq, is_empty, strip}
use pycodebridge.Routing.Names.{or_default_session, find_session}
use pycodebridge.Sessions.State.{SessionState, FileState}
use pycodebridge.Sessions.Stored.{Config, or_text, stored, is_dm}

-- The default for a session, by its backend, and that of the assistant's session.
abbrev default_for : Config → Text → Text → Text → Text → Text → Text → Text
default_for cfg session backend own claude gemini codex =
    let default =
      (if text_eq backend (str "claude")
        then claude
        else if text_eq backend (str "gemini")
        then gemini
        else codex) in
    if is_dm cfg session then or_text own default else default

abbrev backend_from : Config → Option SessionState → Text → Text
backend_from cfg sess session =
    or_text (stored (λ s. s.backend) sess)
      (or_text (if is_dm cfg session then cfg.dm_backend else []) cfg.default_backend)

-- `_session_model_reasoning_from_state`
unfoldable pub model_from_state : Config → FileState → Text → Text → Text
model_from_state cfg fs channel_id session =
    let sess = find_session fs channel_id (or_default_session session) in
    or_text (stored (λ s. s.model) sess) (
      default_for cfg session (backend_from cfg sess session) cfg.dm_model cfg.claude_model
        cfg.gemini_model cfg.codex_model)

unfoldable pub effort_from_state : Config → FileState → Text → Text → Text
effort_from_state cfg fs channel_id session =
    let sess = find_session fs channel_id (or_default_session session) in
    or_text (stored (λ s. s.reasoning_effort) sess) (
      default_for cfg session (backend_from cfg sess session) cfg.dm_effort cfg.claude_effort []
        cfg.codex_effort)

-- Does `build_backend` of codebridge/agents/factory.py know the name? It raises when not.
pub is_backend : (Text → Text) → Text → Bool
is_backend lower name =
    let backend = lower (strip (or_text name (str "codex"))) in
    any (text_eq backend) (str "codex" ∷ str "claude" ∷ str "gemini" ∷ [])

-- Does `_session_backend_from_state` return? An own backend is built, the runner is there.
unfoldable pub has_backend : (Text → Text) → Config → FileState → Text → Text → Bool
has_backend lower cfg fs channel_id session =
    let own = stored (λ s. s.backend) (find_session fs channel_id (or_default_session session)) in
    let assistant = strip cfg.dm_backend in
    if not (is_empty own)
    then is_backend lower own
    else if is_dm cfg session
        && not (is_empty assistant)
        && not (text_eq assistant cfg.default_backend)
    then is_backend lower assistant
    else true
