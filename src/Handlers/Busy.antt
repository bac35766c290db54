-- ===== src/Handlers/Busy.antt =====
-- `repo_busy` of codebridge/routing/router.py: has a repository a running or queued session?
use pycodebridge.Base.{
  Bool, true, false, not, ◌&&◌, ◌||◌, List, [], ◌∷◌, any, is_some, if◌then◌else◌,
}
use pycodebridge.Base.Text.{Text, text_eq}
use pycodebridge.Routing.Names.{or_default_session}
use pycodebridge.Routing.Repos.{repo_key}
use pycodebridge.Sessions.State.{SessionState, ChannelState}
use pycodebridge.Sessions.Tracking.{Tracking, get_active}
use pycodebridge.Sessions.Queue.Manager
use pycodebridge.Sessions.Queue.Manager.{Manager}
use pycodebridge.Handlers.Session.{Run, Settings, Bridge}

module _ {Proc : Type 0} where
  -- The sessions of one channel, in `repo_busy`; `snapshot` may change the manager.
  abbrev busy_sessions :
      Tracking Proc
      → Text
      → (Text → Bool)
      → (Text → Bool)
      → List (Text × SessionState)
      → Manager Run
      → Bool × Manager Run
  busy_sessions tracked channel_id excluded same_repo [] queue = (false, queue)
  busy_sessions tracked channel_id excluded same_repo ((name, sess) ∷ rest) queue =
      let (statuses, shown) = Manager.snapshot queue channel_id in
      let here = busy_sessions tracked channel_id excluded same_repo rest queue in
      let there = busy_sessions tracked channel_id excluded same_repo rest shown in
      if excluded name || not (same_repo sess.repo_name)
      then here
      else if is_some (get_active tracked channel_id name)
      then (true, queue)
      else if any (λ s. text_eq s.session name) statuses
      then (true, shown)
      else there

  abbrev busy_channels :
      Tracking Proc
      → (Text → Text → Bool)
      → (Text → Bool)
      → List (Text × ChannelState)
      → Manager Run
      → Bool × Manager Run
  busy_channels tracked excluded same_repo [] queue = (false, queue)
  busy_channels tracked excluded same_repo ((channel_id, ch) ∷ rest) queue =
      let (busy, queue') =
        busy_sessions tracked channel_id (excluded channel_id) same_repo ch.sessions queue in
      if busy then (true, queue') else busy_channels tracked excluded same_repo rest queue'

module _ {Proc : Type 0} (lower : Text → Text) where
  unfoldable pub repo_busy :
      Bridge Proc → (repo_name exclude_channel exclude_session : Text) → Bool × Bridge Proc
  repo_busy c repo_name exclude_channel exclude_session =
      let (busy, queue) =
        busy_channels c.sessions.tracked
          (λ channel_id name.
            text_eq channel_id exclude_channel && text_eq name (or_default_session exclude_session))
          (λ name. text_eq (repo_key lower name) (repo_key lower repo_name))
          c.sessions.file.channels c.queue in
      (busy, record c { queue = queue })

  -- `direct_repo_sessions_enabled() and await repo_busy(…)`
  abbrev pub checked_busy :
      Settings → Bridge Proc → (repo_name channel_id session : Text) → Bool × Bridge Proc
  checked_busy cfg c repo_name channel_id session =
      if cfg.session_isolation then (false, c) else repo_busy c repo_name channel_id session
