-- ===== src/Sessions/Service/Moves.antt =====
-- `reset_session` and `migrate_channel_scope` as seen through the lookups.
use pycodebridge.Base.{
  Bool, false, not, ◌&&◌, ◌≡◌, ◌≢◌, refl, ap, ◌∙◌, arith, inl, inr, Option, none, some,
  if◌then◌else◌, Option-cases, if_intro,
}
use pycodebridge.Base.Text.{Text, text_eq, text_eq_iff, is_empty}
use pycodebridge.Base.Dict.{Dict, get, has, get-put, get-pop, get-empty, ne_test}
use pycodebridge.Routing.Names.{find_session, session_in, session_exists, channel_or_new}
use pycodebridge.Sessions.State.{ChannelState, FileState}
use pycodebridge.Sessions.Stored.{sticky_in}
use pycodebridge.Sessions.Tracking.{scope_key, reset_tracked, migrate_tracked}
use pycodebridge.Sessions.Tracking.Lookup.{
  lookup, moved_at, or_else, lookup-move, lookup-drop, get-merge,
}
use pycodebridge.Sessions.Service.{
  Service, reset_found, reset_session, migrate_channel, migrate_file, migrate_channel_scope,
  merged_channel,
}

find-reset :
    (fs : FileState) (c s c' s' : Text)
    → find_session (reset_found fs c s (get c fs.channels)).1 c' s'
      ≡ (if text_eq c c' && text_eq s s' then none else find_session fs c' s')
unfolding find_session reset_found
find-reset fs c s c' s' = elim (Option-cases (get c fs.channels)) [
  | inl e ↦ rw e (ground (arith, e, text_eq_iff c c'))
  | inr (ch, e) ↦ rw (e, get-put) (ground (arith, e, text_eq_iff c c', get-pop s s' ch.sessions))
]

reset-exists :
    (fs : FileState) (c s : Text)
    → (reset_found fs c s (get c fs.channels)).0 ≡ session_exists fs c s
unfolding find_session reset_found session_exists
reset-exists fs c s = elim (Option-cases (get c fs.channels)) [
  | inl e ↦ rw e refl
  | inr (ch, e) ↦ rw e refl
]

-- `reset_session` takes the session out of the stored state, out of the running processes and out
-- of the last activities, drops its pending conflict, leaves the same of every other session and
-- the pending conflict at every other key as it was, and returns whether it was stored.
pub reset_session_exact :
    {Proc : Type 0} (s : Service Proc) (channel session channel' session' key : Text)
    → let r = reset_session s channel session in
      let hit = text_eq channel channel' && text_eq session session' in
      (r.0 ≡ session_exists s.file channel session)
      × (find_session r.1.file channel' session'
          ≡ (if hit then none else find_session s.file channel' session'))
      × (lookup r.1.tracked.active channel' session'
          ≡ (if hit then none else lookup s.tracked.active channel' session'))
      × (lookup r.1.tracked.activity channel' session'
          ≡ (if hit then none else lookup s.tracked.activity channel' session'))
      × (get key r.1.tracked.pending
          ≡ (if text_eq (scope_key channel session) key then none else get key s.tracked.pending))
unfolding reset_session reset_tracked
reset_session_exact s c n c' n' key = (
  reset-exists s.file c n,
  find-reset s.file c n c' n',
  lookup-drop c n s.tracked.active c' n',
  lookup-drop c n s.tracked.activity c' n',
  get-pop (scope_key c n) key s.tracked.pending,
)

abbrev pub find_sticky : FileState → Text → Text → Option Text
find_sticky fs channel user = get user (sticky_in fs channel)

-- What the move makes of the channels at `from` and at `to`.
abbrev merged_at : Option ChannelState → Option ChannelState → Option ChannelState
merged_at none to_ch = to_ch
merged_at (some from_ch) to_ch = some (merged_channel from_ch to_ch)

session_in-merged :
    (s : Text) (f t : Option ChannelState)
    → session_in s (merged_at f t) ≡ or_else (session_in s t) (session_in s f)
session_in-merged s none none = refl
session_in-merged s none (some t) = ground (arith, Option-cases (get s t.sessions))
session_in-merged s (some f) none = refl
session_in-merged s (some f) (some t) = get-merge s f.sessions t.sessions

sticky-merged :
    (s : Text) (f t : Option ChannelState)
    → get s (channel_or_new (merged_at f t)).sticky
      ≡ or_else (get s (channel_or_new t).sticky) (get s (channel_or_new f).sticky)
sticky-merged s none none = rw get-empty refl
sticky-merged s none (some t) =
    ground (arith, get-empty {V = Text} s, Option-cases (get s t.sticky))
sticky-merged s (some f) none = rw get-empty refl
sticky-merged s (some f) (some t) = get-merge s f.sticky t.sticky

module _ (from to : Text) (ne : from ≢ to) where
  -- The channel at `c` once `f` moved.
  abbrev after : Dict ChannelState → Text → Option ChannelState
  after d c =
      if text_eq from c
      then none
      else if text_eq to c
      then merged_at (get from d) (get to d)
      else get c d

  channels-migrate :
      (d : Dict ChannelState) (c : Text)
      → get c (migrate_channel from to d (get from d)).1 ≡ after d c
  unfolding migrate_channel
  channels-migrate d c = elim (Option-cases (get from d)) [
    | inl e ↦ rw e (ground (arith, e, text_eq_iff from c, text_eq_iff to c))
    | inr (ch, e) ↦ rw (e, get-pop, get-put) (ground (arith, text_eq_iff from c, text_eq_iff to c))
  ]

  absent : (d : Dict ChannelState) (c : Text) → has from d ≡ false → get c d ≡ after d c
  absent d c h = ground (arith, h, text_eq_iff from c, text_eq_iff to c, Option-cases (get from d))

  file-migrate :
      (fs : FileState) (c : Text) → get c (migrate_file fs from to).1.channels ≡ after fs.channels c
  unfolding migrate_file
  file-migrate fs c =
      if_intro (λ (r : Bool × FileState). get c r.1.channels ≡ after fs.channels c)
        (not (has from fs.channels) && not (has from fs.runtime_options_channels)) _ _
        (λ t. absent fs.channels c (ground (arith, t))) (λ _. channels-migrate fs.channels c)

  find-migrate :
      (fs : FileState) (c s : Text)
      → find_session (migrate_file fs from to).1 c s ≡ moved_at from to (find_session fs) c s
  unfolding find_session
  find-migrate fs c s =
      ap (session_in s) (file-migrate fs c)
      ∙ ground (arith, session_in-merged s (get from fs.channels) (get to fs.channels))

  sticky-migrate :
      (fs : FileState) (c u : Text)
      → find_sticky (migrate_file fs from to).1 c u ≡ moved_at from to (find_sticky fs) c u
  sticky-migrate fs c u =
      ap (λ o. get u (channel_or_new o).sticky) (file-migrate fs c)
      ∙ ground (
        arith,
        get-empty {V = Text} u,
        sticky-merged u (get from fs.channels) (get to fs.channels),
      )

-- Between two different channels with names, `migrate_channel_scope` moves the stored sessions, the
-- selections of users, the running processes and the last activities: afterwards the first channel
-- has none of them, the second has its own and, where it had none, those of the first, and every
-- other channel has what it had.
pub migrate_channel_scope_moves :
    {Proc : Type 0} (s : Service Proc) (from to channel key : Text)
    → is_empty from ≡ false
    → is_empty to ≡ false
    → from ≢ to
    → let s' = (migrate_channel_scope s from to).1 in
      (find_session s'.file channel key ≡ moved_at from to (find_session s.file) channel key)
      × (find_sticky s'.file channel key ≡ moved_at from to (find_sticky s.file) channel key)
      × (lookup s'.tracked.active channel key
          ≡ moved_at from to (lookup s.tracked.active) channel key)
      × (lookup s'.tracked.activity channel key
          ≡ moved_at from to (lookup s.tracked.activity) channel key)
unfolding migrate_channel_scope migrate_tracked
migrate_channel_scope_moves s from to channel key f t ne =
    rw (f, t, ne_test from to ne)
      (
        find-migrate from to ne s.file channel key,
        sticky-migrate from to ne s.file channel key,
        lookup-move from to s.tracked.active channel key ne,
        lookup-move from to s.tracked.activity channel key ne,
      )
