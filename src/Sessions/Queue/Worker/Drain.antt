-- ===== src/Sessions/Queue/Worker/Drain.antt =====
-- The loop of `run()` on a queue to which nothing is added meanwhile.
use pycodebridge.Base.{
  ℕ, ◌≢◌, ◌≡◌, refl, sym, ap, ◌∙◌, true, false, inl, inr, List, [], ◌∷◌, ◌++◌, arith, All, keep,
  keep-append, length, Bool-cases, append_assoc, append-nil, subst,
}
use pycodebridge.Sessions.Queue.{JobRequest, done}
use pycodebridge.Sessions.Queue.Worker.{
  Worker, waiting, holding, executing, Outcome, killed, fetch, fetch_from, begin, finish, round,
  rounds, after_fetch, after_begin,
}
use pycodebridge.Sessions.Queue.Worker.Entries.{is_live, entries, entries-nil}
use pycodebridge.Sessions.Queue.Worker.Invariant.{IsValid, at_stage}
use pycodebridge.Sessions.Queue.Worker.Steps.{Step-IsValid, fetched, begun, finished}

module _ {Job : Type 0} (outcome : ℕ → Outcome) (now : ℕ)
    (ends : (r : ℕ) → outcome r ≢ killed) where
  abbrev IsDone : ℕ → Worker Job → Type 0
  IsDone x w = done (w.objects x).future ≡ true

  -- What one round makes of a worker that waits, with `r` first in its queue.
  record Turned (n r : ℕ) (rest : List ℕ) (w u : Worker Job) : Type 0 where
    valid : IsValid n u
    stage : u.stage ≡ waiting
    queue : u.queue ≡ rest
    called : u.called ≡ w.called ++ keep (is_live w.objects) (r ∷ [])
    over : IsDone r u
    kept : (x : ℕ) → IsDone x w → IsDone x u
    flags : (x : ℕ) → (u.objects x).cancelled ≡ (w.objects x).cancelled

  -- A request that was cancelled is dropped.
  dropped :
      (n r : ℕ) (rest : List ℕ) (w : Worker Job)
      → IsValid n w
      → w.stage ≡ holding r
      → w.queue ≡ rest
      → (w.objects r).cancelled ≡ true
      → Turned n r rest w (begin r now w)
  unfolding begin
  dropped n r rest w v at q c =
      let over : done (w.objects r).future ≡ true = (at_stage n w (holding r) at v).settled.0 c in
      record {
        valid = Step-IsValid (begun n r now w at) v;
        stage = ground (arith, c);
        queue = ground (arith, c, q);
        called = ground (arith, c, append-nil w.called);
        over = ground (arith, c, over);
        kept = λ x d. ground (arith, c, d);
        flags = λ x. ground (arith, c);
      }

  -- Any other is called, and its future is done once the job has ended.
  run_job :
      (n r : ℕ) (rest : List ℕ) (w : Worker Job) (o : Outcome)
      → o ≢ killed
      → IsValid n w
      → w.stage ≡ holding r
      → w.queue ≡ rest
      → (w.objects r).cancelled ≡ false
      → Turned n r rest w (finish r o now (begin r now w))
  unfolding begin finish
  run_job n r rest w killed e v at q c = absurd (e refl)
  run_job n r rest w o e v at q c = record {
    valid =
        Step-IsValid (finished n r now o (begin r now w) (rw c refl))
          (Step-IsValid (begun n r now w at) v);
    stage = ground (arith, c);
    queue = ground (arith, c, q);
    called = ground (arith, c);
    over = ground (arith, c);
    kept = λ x d. ground (arith, c, d);
    flags = λ x. ground (arith, c);
  }

  -- The request in hand, either way.
  handled :
      (n r : ℕ) (rest : List ℕ) (w : Worker Job)
      → IsValid n w
      → w.stage ≡ holding r
      → w.queue ≡ rest
      → Turned n r rest w (after_begin outcome now (begin r now w).stage (begin r now w))
  unfolding after_begin
  handled n r rest w v at q = elim (Bool-cases (w.objects r).cancelled) [
    | inl c ↦
        let d = dropped n r rest w v at q c in
        subst (λ st. Turned n r rest w (after_begin outcome now st (begin r now w))) (sym d.stage) d
    | inr c ↦
        subst (λ st. Turned n r rest w (after_begin outcome now st (begin r now w)))
          (sym (begun_stage c)) (run_job n r rest w (outcome r) (ends r) v at q c)
  ]
    where
      begun_stage : (w.objects r).cancelled ≡ false → (begin r now w).stage ≡ executing r
      begun_stage c = unfold begin in rw c refl

  turned :
      (n r : ℕ) (rest : List ℕ) (w : Worker Job)
      → IsValid n w
      → w.stage ≡ waiting
      → w.queue ≡ r ∷ rest
      → Turned n r rest w (round outcome now w)
  unfolding round after_fetch fetch fetch_from
  turned n r rest w v at q =
      subst (λ f. Turned n r rest w (after_fetch outcome now f.stage f)) (ap (fetch_from w) (sym q))
        (record {
          valid = t.valid;
          stage = t.stage;
          queue = t.queue;
          called = t.called;
          over = t.over;
          kept = t.kept;
          flags = t.flags;
        })
    where
      in_hand_now : Worker Job
      in_hand_now = record w { queue = rest; stage = holding r }

      valid_now : IsValid n in_hand_now
      valid_now = subst (IsValid n) (ap (fetch_from w) q) (Step-IsValid (fetched n w at) v)

      t :
          Turned n r rest in_hand_now
            (after_begin outcome now (begin r now in_hand_now).stage (begin r now in_hand_now))
      t = handled n r rest in_hand_now valid_now refl refl

  keep_same :
      (o o' : ℕ → JobRequest Job) (xs : List ℕ)
      → ((x : ℕ) → (o' x).cancelled ≡ (o x).cancelled)
      → keep (is_live o') xs ≡ keep (is_live o) xs
  keep_same o o' [] h = refl
  keep_same o o' (x ∷ xs) h = ground (arith, h x, keep_same o o' xs h)

  -- What the loop makes of the worker `w` with the queue `q`.
  pub record Drained (n : ℕ) (q : List ℕ) (w u : Worker Job) : Type 0 where
    pub valid : IsValid n u
    pub stage : u.stage ≡ waiting
    pub queue : u.queue ≡ []
    pub called : u.called ≡ w.called ++ keep (is_live w.objects) q
    pub over : All (λ x. IsDone x u) q
    pub kept : (x : ℕ) → IsDone x w → IsDone x u

  drains :
      (n : ℕ) (q : List ℕ) (w : Worker Job)
      → IsValid n w
      → w.stage ≡ waiting
      → w.queue ≡ q
      → Drained n q w (rounds outcome now (length q) w)
  unfolding rounds
  drains n [] w v at e = record {
    valid = v;
    stage = at;
    queue = e;
    called = sym (append-nil w.called);
    over = tt;
    kept = λ x d. d;
  }
  drains n (r ∷ rest) w v at e =
      let t = turned n r rest w v at e in
      let u = drains n rest (round outcome now w) t.valid t.stage t.queue in
      record {
        valid = u.valid;
        stage = u.stage;
        queue = u.queue;
        called = u.called ∙ called_all t;
        over = (u.kept r t.over, u.over);
        kept = λ x d. u.kept x (t.kept x d);
      }
    where
      called_all :
          Turned n r rest w (round outcome now w)
          → (round outcome now w).called ++ keep (is_live (round outcome now w).objects) rest
            ≡ w.called ++ keep (is_live w.objects) (r ∷ rest)
      called_all t =
          ap (λ c. c ++ keep (is_live (round outcome now w).objects) rest) t.called
          ∙ ap (λ k. w.called ++ keep (is_live w.objects) (r ∷ []) ++ k)
              (keep_same w.objects (round outcome now w).objects rest t.flags)
          ∙ append_assoc w.called (keep (is_live w.objects) (r ∷ []))
              (keep (is_live w.objects) rest)
          ∙ ap (λ k. w.called ++ k) (sym (keep-append (is_live w.objects) (r ∷ []) rest))

  -- For a worker that waits and is well formed, when every job returns or raises an `Exception` (a
  -- job that ends with a cancellation would end the worker) and nothing is added or cancelled
  -- meanwhile: as many rounds as there are queued requests call every one of them that is not
  -- cancelled, in their order, and leave no pending job and the future of every one of them done.
  pub rounds_drain :
      (n : ℕ) (w : Worker Job)
      → IsValid n w
      → w.stage ≡ waiting
      → let u = rounds outcome now (length w.queue) w in
        (u.called ≡ w.called ++ keep (is_live w.objects) w.queue)
        × (u.queue ≡ [])
        × (u.pending ≡ [])
        × All (λ x. done (u.objects x).future ≡ true) w.queue
  rounds_drain n w v at =
      let u = drains n w.queue w v at refl in
      (
        u.called,
        u.queue,
        (at_stage n end waiting u.stage u.valid).listed
            ∙ ap (entries end.objects) u.queue
            ∙ entries-nil end.objects,
        u.over,
      )
    where
      end : Worker Job
      end = rounds outcome now (length w.queue) w
