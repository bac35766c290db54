-- ===== src/Routing/Names.antt =====
-- codebridge/routing/helpers.py: session names, and the look at a channel's sessions.
pub mod Valid
use pycodebridge.Base.{
  ℕ, leb, Bool, true, false, not, ◌&&◌, [], ◌∷◌, Option, none, some, length, if◌then◌else◌, is_some,
}
use pycodebridge.Base.Text.{Text, str, is_empty, strip}
use pycodebridge.Base.Dict.{get, put, has}
use pycodebridge.Util.Path.{chomp, is_name}
use pycodebridge.Sessions.State.{SessionState, ChannelState, FileState, empty_channel}

abbrev pub default_session : Text
default_session = str "default"

pub record PendingConflict : Type 0 where
  pub repo_name : Text
  pub session : Text
  pub thread_id : Text
  pub user_id : Text
  pub expires_at : ℕ
  pub reason : Text
  pub prompt : Text

-- The case that it raises is `none`.
unfoldable pub normalize_session : Text → Option Text
unfolding is_name
normalize_session name =
    if is_empty name
    then some default_session
    else if is_name name && leb (length (chomp name)) 64
    then some name
    else none

-- `_normalize_session_default` of codebridge/sessions/service.py.
abbrev or_default : Option Text → Text
or_default none = default_session
or_default (some name) = name

unfoldable pub normalize_session_default : Text → Text
normalize_session_default session =
    let raw = strip session in
    if is_empty raw then default_session else or_default (normalize_session raw)

-- `session or DEFAULT_SESSION`
abbrev pub or_default_session : Text → Text
or_default_session session = if is_empty session then default_session else session

-- `ch.sessions.get(session)` behind `state.channels.get(channel_id)`
abbrev pub session_in : Text → Option ChannelState → Option SessionState
session_in session none = none
session_in session (some ch) = get session ch.sessions

unfoldable pub find_session : FileState → Text → Text → Option SessionState
find_session fs channel_id session = session_in session (get channel_id fs.channels)

abbrev pub count_in : Option ChannelState → ℕ
count_in none = 0
count_in (some ch) = length ch.sessions

unfoldable pub count_active_sessions : FileState → Text → ℕ
count_active_sessions fs channel_id = count_in (get channel_id fs.channels)

unfoldable pub session_exists : FileState → Text → Text → Bool
session_exists fs channel_id session = is_some (find_session fs channel_id session)

abbrev fresh_flag : Option SessionState → Bool
fresh_flag none = false
fresh_flag (some sess) = sess.fresh_start_required

unfoldable pub session_requires_fresh_start : FileState → Text → Text → Bool
session_requires_fresh_start fs channel_id session =
    fresh_flag (find_session fs channel_id (or_default_session session))

abbrev pub thread_of : Option SessionState → Text
thread_of none = []
thread_of (some sess) = sess.thread_id

unfoldable pub existing_thread : FileState → Text → Text → Text
existing_thread fs channel_id session =
    thread_of (find_session fs channel_id (or_default_session session))

-- `ChannelState()` where the channel is new
abbrev pub channel_or_new : Option ChannelState → ChannelState
channel_or_new none = empty_channel
channel_or_new (some ch) = ch

unfoldable pub set_sticky : FileState → Text → Text → Text → FileState
set_sticky fs channel_id user_id session =
    let ch = channel_or_new (get channel_id fs.channels) in
    record fs {
      channels = put channel_id (record ch { sticky = put user_id session ch.sticky }) fs.channels;
    }
