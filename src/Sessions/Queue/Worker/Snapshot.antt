-- ===== src/Sessions/Queue/Worker/Snapshot.antt =====
-- What `snapshot` shows.
use pycodebridge.Base.{
  ℕ, zero, suc, ◌+◌, ◌≡◌, refl, sym, ap, ◌∙◌, List, [], ◌∷◌, ◌++◌, keep, length, map, Option, none,
  some,
}
use mathlib.Core.List.{map-append}
use pycodebridge.Base.Dict.{values}
use pycodebridge.Sessions.Queue.Worker.{
  Worker, snapshot, active_status, pending_statuses, status_of,
}
use pycodebridge.Sessions.Queue.Worker.Entries.{is_live, values-entries}
use pycodebridge.Sessions.Queue.Worker.Invariant.{IsValid, upcoming, active_of}

abbrev pub to_list {ℓ} : {A : Type ℓ} → Option A → List A
to_list none = []
to_list (some a) = a ∷ []

-- `k` numbers from `i` up.
abbrev pub count_up : ℕ → ℕ → List ℕ
count_up i zero = []
count_up i (suc k) = i ∷ count_up (i + 1) k

module _ {Job : Type 0} (w : Worker Job) where
  active_ids :
      (a : Option ℕ)
      → map (λ s. s.job_id) (active_status w a) ≡ map (λ r. (w.objects r).job_id) (to_list a)
  unfolding active_status status_of
  active_ids none = refl
  active_ids (some r) = refl

  active_positions :
      (a : Option ℕ) → map (λ s. s.position) (active_status w a) ≡ map (λ r. 0) (to_list a)
  unfolding active_status status_of
  active_positions none = refl
  active_positions (some r) = refl

  pending_ids :
      (i : ℕ) (rs : List ℕ)
      → map (λ s. s.job_id) (pending_statuses w i rs) ≡ map (λ r. (w.objects r).job_id) rs
  unfolding pending_statuses status_of
  pending_ids i [] = refl
  pending_ids i (r ∷ rs) = ap (◌∷◌ (w.objects r).job_id) (pending_ids (i + 1) rs)

  pending_positions :
      (i : ℕ) (rs : List ℕ)
      → map (λ s. s.position) (pending_statuses w i rs) ≡ count_up i (length rs)
  unfolding pending_statuses status_of
  pending_positions i [] = refl
  pending_positions i (r ∷ rs) = ap (◌∷◌ i) (pending_positions (i + 1) rs)

  -- The requests that a client can ask about: the one that runs, and those to come that are not
  -- cancelled.
  abbrev pub visible : List ℕ
  visible = to_list (active_of w.stage) ++ keep (is_live w.objects) (upcoming w)

  -- A snapshot shows the running job at position 0 and behind it, at 1, 2, and so on, the jobs to
  -- come that are not cancelled, in their order.
  pub snapshot_shows :
      {n : ℕ}
      → IsValid n w
      → (map (λ s. s.job_id) (snapshot w) ≡ map (λ r. (w.objects r).job_id) visible)
        × (map (λ s. s.position) (snapshot w)
            ≡ map (λ r. 0) (to_list (active_of w.stage))
              ++ count_up 1 (length (keep (is_live w.objects) (upcoming w))))
  unfolding snapshot
  snapshot_shows v =
      let listed = ap values v.requests.listed ∙ values-entries w.objects (upcoming w) in
      (
        rw
            (
              v.active,
              listed,
              map-append,
              active_ids (active_of w.stage),
              pending_ids 1 (keep (is_live w.objects) (upcoming w)),
            )
            (sym (map-append _ _ _)),
        rw
            (
              v.active,
              listed,
              map-append,
              active_positions (active_of w.stage),
              pending_positions 1 (keep (is_live w.objects) (upcoming w)),
            )
            refl,
      )
