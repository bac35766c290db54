-- ===== src/Handlers/Core/Outcomes.antt =====
-- What starting and resuming a session come to.
use pycodebridge.Base.{
  ℕ, leb, ◌≡◌, refl, sym, ap, ◌∙◌, subst, arith, Bool, true, false, not, ◌&&◌, [], Option, none,
  some, if◌then◌else◌, inl, inr, ◌⊎◌,
}
use pycodebridge.Base.Options.{◌>>=◌, some_injective}
use pycodebridge.Base.Text.{Text, str, is_empty}
use pycodebridge.Routing.Names.{
  normalize_session, find_session, count_active_sessions, session_exists, existing_thread,
}
use pycodebridge.Sessions.State.{FileState}
use pycodebridge.Sessions.Stored.{update_state}
use pycodebridge.Handlers.Session.{
  Settings, Event, Reply, Bridge, starting, already_exists, repo_is_busy, session_limit_reached,
  max_sessions_per_channel, start_args,
}
use pycodebridge.Handlers.Backends.{model_from_state, effort_from_state}
use pycodebridge.Handlers.Core.{
  ask_user, launch, start_checked, handle_start, expired, resume_plan, resume_checked,
  handle_resume,
}
use pycodebridge.Handlers.Busy.{repo_busy, checked_busy}

-- A chain of three tests that returned.
three_tests {ℓ} :
    {A : Type ℓ} (a b n : Bool) (x y z t : A)
    → (if a then some x else if b then some y else if n then none else some z) ≡ some t
    → ((a ≡ true) × (x ≡ t)) ⊎ (((b ≡ true) × (y ≡ t)) ⊎ ((a ≡ false) × ((b ≡ false) × (z ≡ t))))
three_tests true b n x y z t e = inl (refl, some_injective x t e)
three_tests false true n x y z t e = inr (inl (refl, some_injective y t e))
three_tests false false true x y z t e = cc
three_tests false false false x y z t e = inr (inr (refl, (refl, some_injective z t e)))

one_test {ℓ} :
    {A : Type ℓ} (b : Bool) (x t : A) (y : Option A)
    → (if b then some x else y) ≡ some t
    → (x ≡ t) ⊎ (y ≡ some t)
one_test true x t y e = inl (some_injective x t e)
one_test false x t y e = inr e

last_test {ℓ} : {A : Type ℓ} (b : Bool) (x t : A) → (if b then some x else none) ≡ some t → x ≡ t
last_test true x t e = some_injective x t e
last_test false x t e = cc

pub bound {ℓ κ} :
    {A : Type ℓ} {B : Type κ} (o : Option A) (k : A → Option B) (a : A)
    → o ≡ some a
    → (o >>= k) ≡ k a
bound o k a e = ap (λ o. o >>= k) e

is_not : (b : Bool) → not b ≡ false → b ≡ true
is_not b e = ground arith

module _ (lower : Text → Text) where
  -- What is stored once a session is launched: the session with its thread.
  abbrev pub launched :
      Settings → Event → FileState → (repo_name repo_path session thread_id : Text) → FileState
  launched cfg event fs repo_name repo_path session thread_id =
      update_state lower cfg.service event.utc_now fs event.channel_id session repo_name repo_path
        thread_id (model_from_state cfg.service fs event.channel_id session)
        (effort_from_state cfg.service fs event.channel_id session)

  -- The stored sessions stay, or a session without a thread is stored, and it was there or there
  -- was room for it.
  pub data Started (cfg : Settings) (event : Event) (repo_name repo_path session : Text)
      (fs : FileState) : FileState → Type 0 where
    stays : Started cfg event repo_name repo_path session fs fs
    starts :
        (leb max_sessions_per_channel (count_active_sessions fs event.channel_id)
            && not (session_exists fs event.channel_id session))
          ≡ false
        → is_empty (existing_thread fs event.channel_id session) ≡ true
        → Started cfg event repo_name repo_path session fs (
            launched cfg event fs repo_name repo_path session
              (existing_thread fs event.channel_id session))

module _ {Proc : Type 0} (lower : Text → Text) where
  checked_busy_same :
      (cfg : Settings) (c : Bridge Proc) (repo channel session : Text)
      → (checked_busy lower cfg c repo channel session).1.sessions ≡ c.sessions
  unfolding repo_busy
  checked_busy_same cfg c repo channel session = ground arith

  start_checked-Started :
      (cfg : Settings) (event : Event) (c c' : Bridge Proc) (repo_name repo_path session : Text)
      (reply : Reply)
      → start_checked lower cfg event c repo_name repo_path session ≡ some (reply, c')
      → Started lower cfg event repo_name repo_path session c.sessions.file c'.sessions.file
  start_checked-Started cfg event c c' n p s reply e =
      let fs = c.sessions.file in
      let thread = existing_thread fs event.channel_id s in
      let model = model_from_state cfg.service fs event.channel_id s in
      let effort = effort_from_state cfg.service fs event.channel_id s in
      elim (three_tests _ _ _ (session_limit_reached, c)
        (already_exists s, ask_user cfg event c n s thread (str "start_conflict") [])
        (launch lower cfg event c n p s thread model effort
          (start_args p (cfg.start_prompt n) model effort) starting)
        (reply, c') e) [
          | inl h ↦
              subst (λ t. Started lower cfg event n p s c.sessions.file t.1.sessions.file) h.1 stays
          | inr (inl h) ↦
              subst (λ t. Started lower cfg event n p s c.sessions.file t.1.sessions.file) h.1 stays
          | inr (inr h) ↦
              subst (λ t. Started lower cfg event n p s c.sessions.file t.1.sessions.file) h.1.1
                (starts h.0 (is_not _ h.1.0))
        ]

  -- A start, with the session's name normalised.
  pub handle_start-Started :
      (cfg : Settings) (event : Event) (c c' : Bridge Proc) (repo_name repo_path raw session : Text)
      (reply : Reply)
      → normalize_session raw ≡ some session
      → handle_start lower cfg event c repo_name repo_path raw ≡ some (reply, c')
      → Started lower cfg event repo_name repo_path session c.sessions.file c'.sessions.file
  unfolding handle_start
  handle_start-Started cfg event c c' n p raw session reply name e =
      let checked = checked_busy lower cfg c n event.channel_id session in
      let same = checked_busy_same cfg c n event.channel_id session in
      elim (one_test checked.0 _ (reply, c') (start_checked lower cfg event checked.1 n p session)
        (sym (bound (normalize_session raw) _ session name) ∙ e)) [
          | inl h ↦
              subst (λ t. Started lower cfg event n p session c.sessions.file t.1.sessions.file) h
                (subst (λ x. Started lower cfg event n p session c.sessions.file x.file) (sym same)
                  stays)
          | inr h ↦
              subst (λ x. Started lower cfg event n p session x.file c'.sessions.file) same
                (start_checked-Started cfg event checked.1 c' n p session reply h)
        ]

  resume_checked_file :
      (cfg : Settings) (event : Event) (c c' : Bridge Proc)
      (repo_name repo_path session prompt : Text) (idle : Option ℕ) (reply : Reply)
      → resume_checked lower cfg event c repo_name repo_path session prompt idle ≡ some (reply, c')
      → (c'.sessions.file ≡ c.sessions.file)
        ⊎ (c'.sessions.file
            ≡ launched lower cfg event c.sessions.file repo_name repo_path session
                (existing_thread c.sessions.file event.channel_id session))
  resume_checked_file cfg event c c' n p s prompt (some idle) reply e =
      inl (sym (ap (λ t. t.1.sessions.file) (some_injective _ (reply, c') e)))
  resume_checked_file cfg event c c' n p s prompt none reply e =
      let fs = c.sessions.file in
      let thread = existing_thread fs event.channel_id s in
      let model = model_from_state cfg.service fs event.channel_id s in
      let effort = effort_from_state cfg.service fs event.channel_id s in
      let plan = resume_plan fs event.channel_id s p thread prompt model effort in
      inr (
        sym (
          ap (λ t. t.1.sessions.file)
            (last_test _ (launch lower cfg event c n p s thread model effort plan.0 plan.1)
              (reply, c') e)))

  -- A resumption, with the session's name normalised.
  pub handle_resume_file :
      (age : Text → Option ℕ) (cfg : Settings) (event : Event) (c c' : Bridge Proc)
      (repo_name repo_path raw session prompt : Text) (skip : Bool) (reply : Reply)
      → normalize_session raw ≡ some session
      → handle_resume lower age cfg event c repo_name repo_path raw prompt skip ≡ some (reply, c')
      → (c'.sessions.file ≡ c.sessions.file)
        ⊎ (c'.sessions.file
            ≡ launched lower cfg event c.sessions.file repo_name repo_path session
                (existing_thread c.sessions.file event.channel_id session))
  unfolding handle_resume
  handle_resume_file age cfg event c c' n p raw session prompt skip reply name e =
      let checked = checked_busy lower cfg c n event.channel_id session in
      let same = checked_busy_same cfg c n event.channel_id session in
      let sess = find_session checked.1.sessions.file event.channel_id session in
      elim (one_test checked.0 (repo_is_busy n, checked.1) (reply, c')
        (resume_checked lower cfg event checked.1 n p session prompt (expired age cfg skip sess))
        (sym (bound (normalize_session raw) _ session name) ∙ e)) [
          | inl h ↦ inl (sym (ap (λ t. t.1.sessions.file) h) ∙ ap (λ x. x.file) same)
          | inr h ↦
              subst
                (λ x.
                  (c'.sessions.file ≡ x.file)
                  ⊎ (c'.sessions.file
                      ≡ launched lower cfg event x.file n p session
                          (existing_thread x.file event.channel_id session)))
                same
                (resume_checked_file cfg event checked.1 c' n p session prompt
                  (expired age cfg skip sess) reply h)
        ]
