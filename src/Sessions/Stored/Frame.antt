-- ===== src/Sessions/Stored/Frame.antt =====
-- What a write to one session leaves alone.
use pycodebridge.Base.{Bool, false, ◌&&◌, ◌≡◌, refl, Option, none, some, ap, ◌∙◌, if_intro}
use pycodebridge.Base.Text.{Text, text_eq, text_eq→eq}
use pycodebridge.Base.Dict.{get, put, get-put}
use pycodebridge.Routing.Names.{find_session, normalize_session_default, channel_or_new}
use pycodebridge.Sessions.State.{SessionState, FileState}
use pycodebridge.Sessions.Stored.{
  Config, sticky_in, put_session, update_state, clear_session_thread, clear_found,
  set_session_model, set_session_backend, update_worktree_path, update_task_branch,
}
use pycodebridge.Sessions.Stored.Access.{find-put_session}

-- A call that writes to one session of one channel.
pub data Write : Type 0 where
  updates : (now repo_name repo_path thread_id model effort : Text) → Write
  clears_thread : Bool → Write
  sets_model : (now repo_name repo_path model effort : Text) → Bool → Bool → Write
  sets_backend : Text → Write
  sets_worktree : Text → Write
  sets_branch : Text → Write

module _ (lower : Text → Text) (cfg : Config) where
  abbrev pub apply : Write → FileState → Text → Text → FileState
  apply (updates now n p t m e) fs channel session =
      update_state lower cfg now fs channel session n p t m e
  apply (clears_thread fresh) fs channel session = (clear_session_thread fs channel session fresh).1
  apply (sets_model now n p m e cm ce) fs channel session =
      set_session_model lower now fs channel session n p m e cm ce
  apply (sets_backend b) fs channel session = (set_session_backend fs channel session b).1
  apply (sets_worktree p) fs channel session = update_worktree_path fs channel session p
  apply (sets_branch b) fs channel session = update_task_branch fs channel session b

  -- What all of them come to: a write of the session, or nothing at all.
  data Wrote (fs : FileState) (channel session : Text) : FileState → Type 0 where
    wrote : (sess : SessionState) → Wrote fs channel session (put_session channel session sess fs)
    same : Wrote fs channel session fs

  clear_found-Wrote :
      (fs : FileState) (channel session : Text) (fresh : Bool) (found : Option SessionState)
      → Wrote fs channel session (clear_found fs channel session fresh found).1
  unfolding clear_found
  clear_found-Wrote fs channel session fresh none = same
  clear_found-Wrote fs channel session fresh (some sess) = wrote _

  apply-Wrote :
      (w : Write) (fs : FileState) (channel session : Text)
      → Wrote fs channel (normalize_session_default session) (apply w fs channel session)
  unfolding update_state clear_session_thread set_session_model set_session_backend
      update_worktree_path update_task_branch
  apply-Wrote (updates now n p t m e) fs channel session = wrote _
  apply-Wrote (clears_thread fresh) fs channel session =
      clear_found-Wrote fs channel (normalize_session_default session) fresh
        (find_session fs channel (normalize_session_default session))
  apply-Wrote (sets_model now n p m e cm ce) fs channel session = wrote _
  apply-Wrote (sets_backend b) fs channel session = wrote _
  apply-Wrote (sets_worktree p) fs channel session = wrote _
  apply-Wrote (sets_branch b) fs channel session = wrote _

  Wrote-other :
      {fs : FileState} (channel session : Text) {gs : FileState} (channel' session' : Text)
      → Wrote fs channel session gs
      → (text_eq channel channel' && text_eq session session') ≡ false
      → find_session gs channel' session' ≡ find_session fs channel' session'
  Wrote-other {fs} channel session channel' session' (wrote sess) e =
      rw (find-put_session channel session channel' session' sess fs, e) refl
  Wrote-other channel session channel' session' same e = refl

  Wrote-sticky :
      {fs : FileState} (channel session : Text) {gs : FileState} (channel' : Text)
      → Wrote fs channel session gs
      → sticky_in gs channel' ≡ sticky_in fs channel'
  unfolding put_session
  Wrote-sticky {fs} channel session channel' (wrote sess) =
      let ch = channel_or_new (get channel fs.channels) in
      ap (λ o. (channel_or_new o).sticky)
        (get-put channel channel' (record ch { sessions = put session sess ch.sessions })
          fs.channels)
      ∙ if_intro (λ o. (channel_or_new o).sticky ≡ sticky_in fs channel') (text_eq channel channel')
          (some (record ch { sessions = put session sess ch.sessions })) (get channel' fs.channels)
          (λ t. ap (sticky_in fs) (text_eq→eq channel channel' t)) (λ _. refl)
  Wrote-sticky channel session channel' same = refl

  -- Each of the six calls that write to a session leaves every other session as it was, in the
  -- channel and elsewhere, and the selections of all users.
  pub writes_leave_others :
      (w : Write) (fs : FileState) (channel session channel' session' : Text)
      → (text_eq channel channel' && text_eq (normalize_session_default session) session') ≡ false
      → (find_session (apply w fs channel session) channel' session'
          ≡ find_session fs channel' session')
        × (sticky_in (apply w fs channel session) channel' ≡ sticky_in fs channel')
  writes_leave_others w fs channel session channel' session' e =
      let made = apply-Wrote w fs channel session in
      (
        Wrote-other channel (normalize_session_default session) channel' session' made e,
        Wrote-sticky channel (normalize_session_default session) channel' made,
      )
