-- ===== src/Sessions/Service.antt =====
-- codebridge/sessions/service.py: the calls that change both what is stored and what is tracked.
pub mod Moves
pub mod Examples
use pycodebridge.Base.{
  Bool, true, false, not, ◌&&◌, ◌||◌, List, [], ◌∷◌, Option, none, some, if◌then◌else◌, is_some,
}
use pycodebridge.Base.Text.{Text, is_empty, text_eq}
use pycodebridge.Base.Dict.{Dict, get, put, pop, has}
use pycodebridge.Routing.Names.{find_session}
use pycodebridge.Sessions.State.{ChannelState, FileState, OptionValue}
use pycodebridge.Sessions.Tracking.{Tracking, merge, reset_tracked, migrate_tracked}

-- `SessionService`: the content of its store, and what it keeps in memory.
pub record Service (Proc : Type 0) : Type 0 where
  pub file : FileState
  pub tracked : Tracking Proc

unfoldable pub reset_found : FileState → Text → Text → Option ChannelState → Bool × FileState
reset_found fs channel_id session none = (false, fs)
reset_found fs channel_id session (some ch) = (
  has session ch.sessions,
  record fs {
    channels = put channel_id (record ch { sessions = pop session ch.sessions }) fs.channels;
  },
)

-- What `to` holds after the move of a channel.
abbrev pub merged_channel : ChannelState → Option ChannelState → ChannelState
merged_channel from_ch none = from_ch
merged_channel from_ch (some to_ch) = record {
  sessions = merge from_ch.sessions to_ch.sessions;
  sticky = merge from_ch.sticky to_ch.sticky;
}

unfoldable pub migrate_channel :
    Text → Text → Dict ChannelState → Option ChannelState → Bool × Dict ChannelState
migrate_channel from to channels none = (false, channels)
migrate_channel from to channels (some from_ch) =
    (true, pop from (put to (merged_channel from_ch (get to channels)) channels))

abbrev pub merged_options : Dict OptionValue → Option (Dict OptionValue) → Dict OptionValue
merged_options from_opts none = from_opts
merged_options from_opts (some to_opts) = merge from_opts to_opts

unfoldable pub migrate_options :
    Text
    → Text
    → Dict (Dict OptionValue)
    → Option (Dict OptionValue)
    → Bool × Dict (Dict OptionValue)
migrate_options from to options none = (false, options)
migrate_options from to options (some from_opts) =
    let popped = pop from options in
    (true, put to (merged_options from_opts (get to popped)) popped)

-- The stored half of `migrate_channel_scope`; without the channel or its options there is nothing
-- to move, and the early return leaves the file as it is.
unfoldable pub migrate_file : FileState → Text → Text → Bool × FileState
migrate_file fs from to =
    let (moved, channels) = migrate_channel from to fs.channels (get from fs.channels) in
    let (moved', options) =
      migrate_options from to fs.runtime_options_channels (get from fs.runtime_options_channels) in
    if not (has from fs.channels) && not (has from fs.runtime_options_channels)
    then (false, fs)
    else (moved || moved', record fs { channels = channels; runtime_options_channels = options })

module _ {Proc : Type 0} where
  pub reset_session : Service Proc → Text → Text → Bool × Service Proc
  reset_session s channel_id session =
      let (removed, file) =
        reset_found s.file channel_id session (get channel_id s.file.channels) in
      (removed, record { file = file; tracked = reset_tracked s.tracked channel_id session })

  pub migrate_channel_scope : Service Proc → Text → Text → Bool × Service Proc
  migrate_channel_scope s from to =
      let (changed, tracked) = migrate_tracked s.tracked from to in
      let (state_changed, file) = migrate_file s.file from to in
      if is_empty from || is_empty to || text_eq from to
      then (false, s)
      else (changed || state_changed, record { file = file; tracked = tracked })
