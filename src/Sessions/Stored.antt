-- ===== src/Sessions/Stored.antt =====
-- codebridge/sessions/service.py: what the service writes to the stored state and reads from it.
-- `SessionService` reads through `Store.load` and writes through `Store.update`, which hands the
-- mutator a copy of the state and stores the result: here a function on the state.
pub mod Access
pub mod Frame
pub mod Settings
pub mod Sticky
pub mod Counts
pub mod Examples
use pycodebridge.Base.{
  ℕ, ◌+◌, Bool, true, false, not, ◌&&◌, ◌||◌, List, [], ◌∷◌, Option, none, some, keep, length,
  if◌then◌else◌, is_some,
}
use pycodebridge.Base.Text.{Text, str, text_eq, is_empty, strip}
use pycodebridge.Base.Dict.{Dict, get, put, pop, has}
use pycodebridge.Util.Path.{normalize_repo_name}
use pycodebridge.Routing.Names.{normalize_session_default, find_session, set_sticky, channel_or_new}
use pycodebridge.Sessions.State.{SessionState, ChannelState, FileState, new_session}

-- What the service reads of the configuration.
pub record Config : Type 0 where
  pub default_backend : Text
  pub codex_model : Text
  pub codex_effort : Text
  pub claude_model : Text
  pub claude_effort : Text
  pub gemini_model : Text
  pub dm_enabled : Bool
  pub dm_backend : Text
  pub dm_model : Text
  pub dm_effort : Text

abbrev pub session_or : SessionState → Option SessionState → SessionState
session_or new none = new
session_or new (some sess) = sess

-- `ch.sessions[session] = sess` and `fs.channels[channel_id] = ch`
unfoldable pub put_session : Text → Text → SessionState → FileState → FileState
put_session channel_id session sess fs =
    let ch = channel_or_new (get channel_id fs.channels) in
    record fs {
      channels = put channel_id (record ch { sessions = put session sess ch.sessions }) fs.channels;
    }

-- The sticky selections of a channel.
abbrev pub sticky_in : FileState → Text → Dict Text
sticky_in fs channel = (channel_or_new (get channel fs.channels)).sticky

-- `x or y` on texts
abbrev pub or_text : Text → Text → Text
or_text a b = if is_empty a then b else a

-- The repository's name as `update_state` and `set_session_model` take it; `lower` is `str.lower`.
abbrev pub repo_or_lower : (Text → Text) → Text → Text
repo_or_lower lower repo_name = elim (normalize_repo_name repo_name) [
  | none ↦ lower (strip repo_name)
  | some name ↦ name
]

-- A model or an effort is stored unless it is the configured one and nothing was stored.
abbrev pub override : Text → Text → Text → Text
override stored given configured =
    if not (is_empty given) && (not (is_empty stored) || not (text_eq given configured))
    then given
    else stored

-- `now` is `utc_now_iso()`.
unfoldable pub updated :
    Config → Text → Text → Text → Text → Text → Text → SessionState → SessionState
updated cfg now repo_name repo_path thread_id model effort sess = record sess {
  created_at = or_text sess.created_at now;
  repo_name = or_text repo_name sess.repo_name;
  repo_path = or_text repo_path sess.repo_path;
  thread_id = or_text thread_id sess.thread_id;
  fresh_start_required = (if is_empty thread_id then sess.fresh_start_required else false);
  model = override sess.model model cfg.codex_model;
  reasoning_effort = override sess.reasoning_effort effort cfg.codex_effort;
  last_used_at = now;
}

unfoldable pub update_state :
    (Text → Text)
    → Config
    → Text
    → FileState
    → (channel_id session repo_name repo_path thread_id model effort : Text) → FileState
update_state lower cfg now fs channel_id session repo_name repo_path thread_id model effort =
    let name = normalize_session_default session in
    let repo = repo_or_lower lower repo_name in
    let sess =
      session_or (new_session repo repo_path thread_id) (find_session fs channel_id name) in
    put_session channel_id name (updated cfg now repo repo_path thread_id model effort sess) fs

clear_found : FileState → Text → Text → Bool → Option SessionState → Bool × FileState
clear_found fs channel_id session fresh none = (false, fs)
clear_found fs channel_id session fresh (some sess) = (
  not (is_empty sess.thread_id),
  put_session channel_id session
      (record sess { thread_id = []; fresh_start_required = fresh || sess.fresh_start_required })
      fs,
)

pub clear_session_thread : FileState → Text → Text → Bool → Bool × FileState
unfolding clear_found
clear_session_thread fs channel_id session fresh =
    let name = normalize_session_default session in
    clear_found fs channel_id name fresh (find_session fs channel_id name)

abbrev pub stored : (SessionState → Text) → Option SessionState → Text
stored field none = []
stored field (some sess) = field sess

abbrev pub is_dm : Config → Text → Bool
is_dm cfg session = text_eq session (str "dm") && cfg.dm_enabled

unfoldable pub session_backend : Config → FileState → Text → Text → Text
session_backend cfg fs channel_id session =
    let name = normalize_session_default session in
    or_text (stored (λ s. s.backend) (find_session fs channel_id name))
      (if is_dm cfg name then or_text cfg.dm_backend cfg.default_backend else cfg.default_backend)

-- The defaults of the assistant's session.
abbrev pub dm_default : Text → Text → Text → Text → Text → Text
dm_default own backend claude gemini codex =
    if not (is_empty own)
    then own
    else if text_eq backend (str "claude")
    then claude
    else if text_eq backend (str "gemini")
    then gemini
    else codex

unfoldable pub session_model : Config → FileState → Text → Text → Text
session_model cfg fs channel_id session =
    let name = normalize_session_default session in
    or_text (stored (λ s. s.model) (find_session fs channel_id name)) (
      if is_dm cfg name
      then dm_default cfg.dm_model (session_backend cfg fs channel_id name) cfg.claude_model
          cfg.gemini_model cfg.codex_model
      else cfg.codex_model)

unfoldable pub session_reasoning_effort : Config → FileState → Text → Text → Text
session_reasoning_effort cfg fs channel_id session =
    let name = normalize_session_default session in
    or_text (stored (λ s. s.reasoning_effort) (find_session fs channel_id name)) (
      if is_dm cfg name
      then dm_default cfg.dm_effort (session_backend cfg fs channel_id name) cfg.claude_effort []
          cfg.codex_effort
      else cfg.codex_effort)

abbrev pub set_or_clear : Bool → Text → Text → Text
set_or_clear clear given old = if clear then [] else or_text given old

unfoldable pub set_session_model :
    (Text → Text)
    → Text
    → FileState
    → (channel_id session repo_name repo_path model effort : Text) → Bool
    → Bool
    → FileState
set_session_model lower now fs channel_id session repo_name repo_path model effort clear_model
      clear_effort =
    let name = normalize_session_default session in
    let repo = repo_or_lower lower repo_name in
    let sess = session_or (new_session repo repo_path []) (find_session fs channel_id name) in
    put_session channel_id name
      (record sess {
        created_at = or_text sess.created_at now;
        repo_name = or_text repo sess.repo_name;
        repo_path = or_text repo_path sess.repo_path;
        model = set_or_clear clear_model model sess.model;
        reasoning_effort = set_or_clear clear_effort effort sess.reasoning_effort;
        last_used_at = now;
      })
      fs

-- What the switch of a backend took away: a thread or none, the model, the effort.
pub record Cleared : Type 0 where
  pub cleared_thread : Bool
  pub cleared_model : Text
  pub cleared_effort : Text

unfoldable pub set_session_backend : FileState → Text → Text → Text → Cleared × FileState
set_session_backend fs channel_id session backend =
    let name = normalize_session_default session in
    let sess = session_or (new_session [] [] []) (find_session fs channel_id name) in
    (
      record {
        cleared_thread = not (is_empty sess.thread_id);
        cleared_model = sess.model;
        cleared_effort = sess.reasoning_effort;
      },
      put_session channel_id name
          (record sess { thread_id = []; model = []; reasoning_effort = []; backend = backend }) fs,
    )

abbrev pub selected : Option Text → Text
selected none = []
selected (some s) = s

abbrev sticky_of : Text → Option ChannelState → Text
sticky_of user_id none = []
sticky_of user_id (some ch) = selected (get user_id ch.sticky)

unfoldable pub current_session_for_user : FileState → Text → Text → Text → Text
current_session_for_user fs user_id channel_id default =
    or_text (if is_empty user_id then [] else sticky_of user_id (get channel_id fs.channels))
      (normalize_session_default default)

-- `SessionService.set_sticky`
unfoldable pub select_sticky : FileState → Text → Text → Text → FileState
select_sticky fs channel_id user_id session =
    set_sticky fs channel_id user_id (normalize_session_default session)

clear_sticky_in : FileState → Text → Text → Option ChannelState → ℕ × FileState
clear_sticky_in fs channel_id session none = (0, fs)
clear_sticky_in fs channel_id session (some ch) = (
  length (keep (λ e. text_eq e.1 session) ch.sticky),
  record fs {
    channels =
        put channel_id (record ch { sticky = keep (λ e. not (text_eq e.1 session)) ch.sticky })
          fs.channels;
  },
)

pub clear_sticky_session : FileState → Text → Text → ℕ × FileState
unfolding clear_sticky_in
clear_sticky_session fs channel_id session =
    clear_sticky_in fs channel_id (normalize_session_default session) (get channel_id fs.channels)

unfoldable pub update_worktree_path : FileState → Text → Text → Text → FileState
update_worktree_path fs channel_id session path =
    let name = normalize_session_default session in
    let sess = session_or (new_session [] [] []) (find_session fs channel_id name) in
    put_session channel_id name (record sess { worktree_path = path }) fs

unfoldable pub update_task_branch : FileState → Text → Text → Text → FileState
update_task_branch fs channel_id session branch =
    let name = normalize_session_default session in
    let sess = session_or (new_session [] [] []) (find_session fs channel_id name) in
    put_session channel_id name (record sess { task_branch = branch }) fs

unfoldable pub get_task_branch : FileState → Text → Text → Text
get_task_branch fs channel_id session =
    stored (λ s. s.task_branch) (find_session fs channel_id (normalize_session_default session))

abbrev pub clear_task_branch : FileState → Text → Text → FileState
clear_task_branch fs channel_id session = update_task_branch fs channel_id session []
