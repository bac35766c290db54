-- ===== src/Sessions/State/Json.antt =====
-- codebridge/sessions/state.py: `_to_dict` and `_from_dict` with the migration of old files.
-- `none` is a file that the source does not read: it raises, or it would keep a value that is no
-- text where a record has a text.
pub mod RoundTrip
pub mod Examples
use pycodebridge.Base.{
  ℕ, leb, zero, suc, Bool, true, false, not, ◌&&◌, ◌||◌, List, [], ◌∷◌, Option, none, some, any,
  map, if◌then◌else◌,
}
use pycodebridge.Base.Integers.{ℤ, pos, negsuc}
use pycodebridge.Base.Options.{◌>>=◌, ◌>>◌}
use pycodebridge.Base.Text.{Text, str, text_eq, is_empty, strip}
use pycodebridge.Base.Dict.{Dict, get, put}
use pycodebridge.Base.Json.{Json, null, bool, num, text, arr, obj, entries, object, truthy}
use pycodebridge.Routing.Repos.{is_nil, repo_key}
use pycodebridge.Sessions.State.{
  SessionState, ChannelState, FileState, OptionValue, number, flag, new_session,
}
use pycodebridge.Sessions.State.Values.{
  collect, collect_all, dict_or_empty, dict_of, dict_at, text_of, text_at, is_truthy, dict_or_none,
  in_range, flag_of, parse_bool, int_of, normalize_option, normalize_value, value_at, some_name,
  normalize_options,
}

abbrev pub json_of : OptionValue → Json
json_of (number n) = num (pos n)
json_of (flag b) = bool b

pub encode_session : SessionState → Json
encode_session s = object (
    (str "repo_name", text s.repo_name)
    ∷ (str "repo_path", text s.repo_path)
    ∷ (str "thread_id", text s.thread_id)
    ∷ (str "model", text s.model)
    ∷ (str "reasoning_effort", text s.reasoning_effort)
    ∷ (str "backend", text s.backend)
    ∷ (str "worktree_path", text s.worktree_path)
    ∷ (str "task_branch", text s.task_branch)
    ∷ (str "created_at", text s.created_at)
    ∷ (str "last_used_at", text s.last_used_at)
    ∷ (str "fresh_start_required", bool s.fresh_start_required)
    ∷ [])

abbrev pub texts : Dict Text → Dict Json
texts d = map (λ e. (e.0, text e.1)) d

pub encode_channel : ChannelState → Json
encode_channel ch = object (
    (str "sessions", object (map (λ e. (e.0, encode_session e.1)) ch.sessions))
    ∷ (str "sticky", object (texts ch.sticky))
    ∷ [])

-- `str.lower`, `str(v)` for a value that is no text, and `int(t)` on a text, which may raise.
module _ (lower : Text → Text) (str_of : Json → Text) (int_of_text : Text → Option ℤ) where
  abbrev scoped : Dict OptionValue → Option (Dict OptionValue)
  scoped options = if is_nil options then none else some options

  abbrev pub encode_options : Dict OptionValue → Json
  encode_options d = object (
      map (λ e. (e.0, json_of e.1))
        ((normalize_options lower str_of int_of_text) (map (λ e. (e.0, json_of e.1)) d)))

  abbrev encode_scope : Text → Dict OptionValue → Option Json
  encode_scope channel_id d =
      let options =
        (normalize_options lower str_of int_of_text) (map (λ e. (e.0, json_of e.1)) d) in
      if is_nil options then none else some (object (map (λ e. (e.0, json_of e.1)) options))

  pub to_dict : FileState → Json
  to_dict fs = object (
      (str "version", num fs.version)
      ∷ (str "channels", object (map (λ e. (e.0, encode_channel e.1)) fs.channels))
      ∷ (str "dm_bindings", object (texts fs.dm_bindings))
      ∷ (str "runtime_options_global", encode_options fs.runtime_options_global)
      ∷ (
        str "runtime_options_channels",
        object (collect encode_scope fs.runtime_options_channels []),
      )
      ∷ [])

  abbrev bool_at : Option Json → Option Bool
  bool_at none = some false
  bool_at (some v) = (parse_bool lower str_of int_of_text) v

  pub decode_session : Json → Option SessionState
  decode_session v = do
    s ← dict_of v
    repo_path ← text_at (get (str "repo_path") s)
    thread_id ← text_at (get (str "thread_id") s)
    model ← text_at (get (str "model") s)
    reasoning_effort ← text_at (get (str "reasoning_effort") s)
    backend ← text_at (get (str "backend") s)
    worktree_path ← text_at (get (str "worktree_path") s)
    task_branch ← text_at (get (str "task_branch") s)
    created_at ← text_at (get (str "created_at") s)
    last_used_at ← text_at (get (str "last_used_at") s)
    fresh ← bool_at (get (str "fresh_start_required") s)
    some (record {
      repo_name = (value_at lower str_of int_of_text) (get (str "repo_name") s);
      repo_path = repo_path;
      thread_id = thread_id;
      model = model;
      reasoning_effort = reasoning_effort;
      backend = backend;
      worktree_path = worktree_path;
      task_branch = task_branch;
      created_at = created_at;
      last_used_at = last_used_at;
      fresh_start_required = fresh;
    })

  pub decode_channel : Json → Option ChannelState
  decode_channel v = do
    ch ← dict_or_empty v
    sessions_raw ← dict_at (get (str "sessions") ch)
    sticky_raw ← dict_at (get (str "sticky") ch)
    sessions ← collect_all decode_session sessions_raw []
    sticky ← collect_all text_of sticky_raw []
    some (record { sessions = sessions; sticky = sticky })

  -- The session that a channel of the old format holds itself.
  pub legacy_session : Dict Json → Option SessionState
  legacy_session ch = do
    repo_path ← text_at (get (str "repo_path") ch)
    thread_id ← text_at (get (str "thread_id") ch)
    created_at ← text_at (get (str "created_at") ch)
    last_used_at ← text_at (get (str "last_used_at") ch)
    some
        (record (new_session ((value_at lower str_of int_of_text) (get (str "repo_name") ch))
          repo_path thread_id) { created_at = created_at; last_used_at = last_used_at })

  abbrev legacy_sessions : Dict Json → Option ChannelState → Option (Option ChannelState)
  legacy_sessions ch none = some none
  legacy_sessions ch (some channel) =
      if not (is_truthy (get (str "repo_name") ch)) && not (is_truthy (get (str "thread_id") ch))
      then some none
      else (do
        sess ← legacy_session ch
        some (some (record channel { sessions = (str "default", sess) ∷ [] })))

  abbrev without_sessions : Option ChannelState → Option ChannelState
  without_sessions none = none
  without_sessions (some channel) = if is_nil channel.sessions then some channel else none

  abbrev place : Text → Option ChannelState → Dict ChannelState → Dict ChannelState
  place channel_id none channels = channels
  place channel_id (some channel) channels = put channel_id channel channels

  -- `ch.get` is called on a channel without sessions only, and raises on what is no dict.
  abbrev migrate_one : Json → Option ChannelState → Option (Option ChannelState)
  migrate_one v none = some none
  migrate_one v (some channel) = do ch ← dict_of v; legacy_sessions ch (some channel)

  pub migrate_legacy : List (Text × Json) → Dict ChannelState → Option (Dict ChannelState)
  migrate_legacy [] channels = some channels
  migrate_legacy ((channel_id, v) ∷ rest) channels = do
    migrated ← migrate_one v (without_sessions (get channel_id channels))
    migrate_legacy rest (place channel_id migrated channels)

  abbrev version_at : Option Json → Option ℤ
  version_at none = some (pos 1)
  version_at (some v) = (int_of lower str_of int_of_text) v

  abbrev binding : Text → Json → Option Text
  binding user v =
      (some_name lower str_of int_of_text) ((normalize_value lower str_of int_of_text) v)

  abbrev scope_options : Text → Json → Option (Dict OptionValue)
  scope_options channel_id v =
      scoped ((normalize_options lower str_of int_of_text) (dict_or_none v))

  pub from_dict : Dict Json → Option FileState
  from_dict raw = do
    version ← version_at (get (str "version") raw)
    channels_raw ← dict_at (get (str "channels") raw)
    bindings_raw ← dict_at (get (str "dm_bindings") raw)
    global_raw ← dict_at (get (str "runtime_options_global") raw)
    scopes_raw ← dict_at (get (str "runtime_options_channels") raw)
    channels ← collect_all decode_channel channels_raw []
    migrated ← migrate_legacy channels_raw channels
    some (record {
      version = version;
      channels = migrated;
      dm_bindings = collect binding bindings_raw [];
      runtime_options_global = (normalize_options lower str_of int_of_text) global_raw;
      runtime_options_channels = collect scope_options scopes_raw [];
    })

  -- `_from_dict(json.load(f))`
  unfoldable pub read_state : Json → Option FileState
  read_state v = do raw ← dict_of v; from_dict raw
