-- ===== src/Sessions/Queue/Manager/Rekey.antt =====
-- `rekey_channel` moves a channel's queue and its last job.
use pycodebridge.Base.{
  ◌≡◌, ◌≢◌, refl, false, Option, none, some, arith, inl, inr, Option-cases, if◌then◌else◌,
}
use pycodebridge.Base.Text.{Text, is_empty, text_eq, text_eq_iff}
use pycodebridge.Base.Dict.{Dict, get, put, has, get-put, get-pop, ne_test}
use pycodebridge.Sessions.Queue.{JobRecord}
use pycodebridge.Sessions.Queue.Worker.{Worker}
use pycodebridge.Sessions.Queue.Manager.{Manager, pruned, rekey_workers, rekey_last, rekey_channel}

-- The first of two that is there.
abbrev pub or_else {ℓ} : {A : Type ℓ} → Option A → Option A → Option A
or_else (some a) b = some a
or_else none b = b

-- What a key holds after a move from `from` to `to` that the holder of `to` wins.
abbrev pub moved {ℓ} : {V : Type ℓ} → Text → Text → Dict V → Text → Option V
moved from to d key =
    if text_eq from key
    then none
    else if text_eq to key
    then or_else (get to d) (get from d)
    else get key d

module _ {Job : Type 0} (from to : Text) (ne : from ≢ to) where
  last_moved :
      (d : Dict (JobRecord Job)) (key : Text)
      → get key (rekey_last from to d (get from d) (has to d)).1 ≡ moved from to d key
  unfolding rekey_last
  last_moved d key = elim (Option-cases (get from d)) [
    | inl e ↦
        rw e (ground (arith, e, text_eq_iff from key, text_eq_iff to key, Option-cases (get to d)))
    | inr (r, e) ↦ elim (Option-cases (get to d)) [
      | inl f ↦ rw (e, f) (ground (arith, f, get-pop from key (put to r d), get-put to key r d))
      | inr (t, f) ↦ rw (e, f) (ground (arith, f, get-pop from key d, text_eq_iff to key))
    ]
  ]

  worker_moved :
      (d : Dict (Worker Job)) (key : Text)
      → get key (rekey_workers from to d (get from d) (has to d)).1
        ≡ (if has to d then get key d else moved from to d key)
  unfolding rekey_workers
  worker_moved d key = elim (Option-cases (get from d)) [
    | inl e ↦
        rw e (ground (arith, e, text_eq_iff from key, text_eq_iff to key, Option-cases (get to d)))
    | inr (w, e) ↦ elim (Option-cases (get to d)) [
      | inl f ↦ rw (e, f) (ground (arith, f, get-pop from key (put to w d), get-put to key w d))
      | inr (t, f) ↦ rw (e, f) refl
    ]
  ]

-- Between two different channels with names, the last job moves unless the target has one, the
-- worker moves unless the target has one, and no other channel is touched.
pub rekey_moves :
    {Job : Type 0} (m : Manager Job) (from to key : Text)
    → is_empty from ≡ false
    → is_empty to ≡ false
    → from ≢ to
    → let m' = (rekey_channel m from to).1 in
      let workers = pruned m.workers in
      (get key m'.last_jobs ≡ moved from to m.last_jobs key)
      × (get key m'.workers
          ≡ (if has to workers then get key workers else moved from to workers key))
unfolding rekey_channel
rekey_moves m from to key f t ne =
    rw (f, t, ne_test from to ne)
      (last_moved from to ne m.last_jobs key, worker_moved from to ne (pruned m.workers) key)
