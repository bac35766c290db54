-- ===== src/Sessions/Queue/Worker/Safety.antt =====
-- What holds of every worker that its own steps and its clients' can reach.
use pycodebridge.Base.{
  ℕ, ◌+◌, ◌≤◌, ◌<◌, ◌≢◌, ◌≡◌, refl, sym, ap, ◌∙◌, inl, inr, true, false, ◌&&◌, List, [], ◌∷◌, arith,
  All, keep, length, length-append, Option, none, some, Bool-cases, Option-cases, ◌==◌,
  if◌then◌else◌,
}
use pycodebridge.Base.Text.{Text, text_eq}
use pycodebridge.Base.Dict.{get, put, get-pop}
use pycodebridge.Sessions.Queue.{JobRequest, done, job_name}
use pycodebridge.Sessions.Queue.Worker.{
  Worker, waiting, stopped, returned, raised, killed, enqueue, time_out, fetch, begin, finish,
  cancel, cancel_found, fetch_from, abandon, fresh, none_active, is_nil,
}
use pycodebridge.Sessions.Queue.Worker.Order.{below-ne, All-split, Above, Above-left, Above-right}
use pycodebridge.Sessions.Queue.Worker.Entries.{
  entries, none_live, is_live, length-entries, put-new, Named-ne, found_all, found,
}
use pycodebridge.Sessions.Queue.Worker.Invariant.{
  IsValid, Settled, at_stage, upcoming, fresh-IsValid,
}
use pycodebridge.Sessions.Queue.Worker.Steps.{
  Step-IsValid, Step, enqueued, timed_out, fetched, begun, finished, cancels, abandons, Reach, here,
  next, Reach-IsValid,
}

is_nil_eq {ℓ} : {A : Type ℓ} (xs : List A) → is_nil xs ≡ true → xs ≡ []
is_nil_eq [] e = refl
is_nil_eq (x ∷ xs) e = cc

module _ {Job : Type 0} where
  -- From a new worker on, jobs are called in the order of their numbers, each at most once, none
  -- that was cancelled, and the pending jobs are those still to come that are not cancelled.
  pub called_in_order :
      {n : ℕ} (o : ℕ → JobRequest Job) {m : ℕ} {w : Worker Job}
      → Reach n (fresh o) m w
      → Above 0 w.called
        × All (λ r. (w.objects r).cancelled ≡ false) w.called
        × (w.pending ≡ entries w.objects (upcoming w))
  called_in_order {n} o {m} {w} reach =
      let h = (Reach-IsValid (fresh-IsValid n o) reach).requests in
      (Above-left 0 w.called (upcoming w) h.order, h.clean, h.listed)

  -- The request `r` was cancelled, and its future is done.
  pub record IsGone (n r : ℕ) (w : Worker Job) : Type 0 where
    pub old : r ≤ n
    pub flag : (w.objects r).cancelled ≡ true
    pub over : done (w.objects r).future ≡ true

  fetch_from-IsGone :
      (n r : ℕ) (w : Worker Job) (q : List ℕ) → IsGone n r w → IsGone n r (fetch_from w q)
  unfolding fetch_from
  fetch_from-IsGone n r w [] g = g
  fetch_from-IsGone n r w (x ∷ q) g = record { old = g.old; flag = g.flag; over = g.over }

  cancel_found-IsGone :
      (n r : ℕ) (id : Text) (w : Worker Job) (p : Option ℕ)
      → IsGone n r w
      → IsGone n r (cancel_found w id p).1
  unfolding cancel_found
  cancel_found-IsGone n r id w none g = g
  cancel_found-IsGone n r id w (some k) g = record {
    old = g.old;
    flag = ground (arith, g.flag);
    over = ground (arith, g.over);
  }

  Step-IsGone : {n m : ℕ} {w u : Worker Job} (r : ℕ) → Step n w m u → IsGone n r w → IsGone m r u
  unfolding enqueue time_out fetch begin finish cancel abandon
  Step-IsGone r (enqueued n k w req h id live) g = record {
    old = omega (arith, g.old);
    flag = ground (arith, g.old, g.flag);
    over = ground (arith, g.old, g.over);
  }
  Step-IsGone r (timed_out n w at) g = ground (arith, g.old, g.flag, g.over)
  Step-IsGone r (fetched n w at) g = fetch_from-IsGone n r w w.queue g
  Step-IsGone r (begun n k now w at) g = record {
    old = g.old;
    flag = ground (arith, g.flag);
    over = ground (arith, g.over);
  }
  Step-IsGone r (finished n k now returned w at) g = record {
    old = g.old;
    flag = ground (arith, g.flag);
    over = ground (arith, g.over);
  }
  Step-IsGone r (finished n k now (raised e) w at) g = record {
    old = g.old;
    flag = ground (arith, g.flag);
    over = ground (arith, g.over);
  }
  Step-IsGone r (finished n k now killed w at) g = record {
    old = g.old;
    flag = ground (arith, g.flag);
    over = ground (arith, g.over);
  }
  Step-IsGone r (cancels n id w) g = cancel_found-IsGone n r id w (get id w.pending) g
  Step-IsGone r (abandons n k w) g = record {
    old = g.old;
    flag = ground (arith, g.flag);
    over = ground (arith, g.over);
  }

  Reach-IsGone :
      {n : ℕ} {w : Worker Job} {m : ℕ} {u : Worker Job} (r : ℕ)
      → Reach n w m u
      → IsGone n r w
      → IsGone m r u
  Reach-IsGone r here g = g
  Reach-IsGone r (next reach s) g = Step-IsGone r s (Reach-IsGone r reach g)

  clean_ne :
      (o : ℕ → JobRequest Job) (r : ℕ) (called : List ℕ)
      → (o r).cancelled ≡ true
      → All (λ x. (o x).cancelled ≡ false) called
      → All (λ x. x ≢ r) called
  clean_ne o r [] gone clean = tt
  clean_ne o r (x ∷ called) gone clean =
      (λ e. cc (gone, clean.0, ap (λ y. (o y).cancelled) e), clean_ne o r called gone clean.1)

  cancelled-IsGone :
      (n r : ℕ) (id : Text) (w : Worker Job)
      → IsValid n w
      → get id w.pending ≡ some r
      → IsGone n r (cancel_found w id (some r)).1
  unfolding cancel_found
  cancelled-IsGone n r id w v e = record {
    old =
        found_all (λ x. x ≤ n) w.objects id (upcoming w) r
          (All-split (λ x. x ≤ n) w.called (upcoming w) v.requests.bound).1
          (ap (get id) (sym v.requests.listed) ∙ e);
    flag = ground arith;
    over = ground arith;
  }

  -- A job that was cancelled while it was pending is never called, whatever happens afterwards, and
  -- its future stays done.
  pub cancelled_never_called :
      {n r : ℕ} (id : Text) {w : Worker Job} {m : ℕ} {u : Worker Job}
      → IsValid n w
      → get id w.pending ≡ some r
      → Reach n (cancel w id).1 m u
      → All (λ x. x ≢ r) u.called × (done (u.objects r).future ≡ true)
  cancelled_never_called {n} {r} id {w} {m} {u} v e reach =
      let gone = Reach-IsGone r reach (unfold cancel in rw e (cancelled-IsGone n r id w v e)) in
      let valid = Reach-IsValid (Step-IsValid (cancels n id w) v) reach in
      (clean_ne u.objects r u.called gone.flag valid.requests.clean, gone.over)

  both :
      (o : ℕ → JobRequest Job) (xs : List ℕ)
      → All (λ r. (o r).cancelled ≡ true) xs
      → All (λ r. Settled (o r)) xs
      → All (λ r. ((o r).cancelled ≡ true) × (done (o r).future ≡ true)) xs
  both o [] c s = tt
  both o (x ∷ xs) c s = ((c.0, s.0 c.0), both o xs c.1 s.1)

  -- A worker that ends for want of work leaves no request behind but cancelled ones, whose futures
  -- are done.
  pub idle_exit :
      (n : ℕ) (w : Worker Job)
      → IsValid n w
      → w.stage ≡ waiting
      → (time_out w).stage ≡ stopped
      → All (λ r. ((w.objects r).cancelled ≡ true) × (done (w.objects r).future ≡ true)) w.queue
  unfolding time_out
  idle_exit n w v at ended = elim (Bool-cases (none_active w.active && is_nil w.pending)) [
    | inl t ↦
        let h = at_stage n w waiting at v in
        let empty : w.pending ≡ [] = is_nil_eq w.pending (ground arith) in
        both w.objects w.queue (none_live w.objects w.queue (sym h.listed ∙ empty)) h.settled
    | inr t ↦ cc (at, rw t at ended)
  ]

  -- When `cancel` succeeds on a well-formed worker, a request with that id was pending and not
  -- cancelled. It is marked as cancelled, its future is done and its id is not pending any more;
  -- every other request (`q`) and what is pending under every other id (`other`) stay as they were.
  pub cancel_exact :
      (n q : ℕ) (id other : Text) (w : Worker Job)
      → IsValid n w
      → (cancel w id).0 ≡ true
      → (r : ℕ) × (get id w.pending ≡ some r)
        × ((w.objects r).job_id ≡ id)
        × ((w.objects r).cancelled ≡ false)
        × (((cancel w id).1.objects r).cancelled ≡ true)
        × (done ((cancel w id).1.objects r).future ≡ true)
        × ((if r == q then w.objects q else (cancel w id).1.objects q) ≡ w.objects q)
        × (get other (cancel w id).1.pending
            ≡ (if text_eq id other then none else get other w.pending))
  unfolding cancel cancel_found
  cancel_exact n q id other w v e = elim (Option-cases (get id w.pending)) [
    | inl t ↦ cc (rw t at e)
    | inr (r, t) ↦
        let f =
          found w.objects id 0 (upcoming w) r (Above-right 0 w.called (upcoming w) v.requests.order)
            (ap (get id) (sym v.requests.listed) ∙ t) in
        rw t (
          r,
          refl,
          f.id,
          f.live,
          ground arith,
          ground arith,
          ground arith,
          get-pop id other w.pending,
        )
  ]

  -- The position that a client is told counts the jobs that are pending, its own included.
  pub enqueue-position :
      (n r : ℕ) (w : Worker Job) (req : JobRequest Job)
      → IsValid n w
      → n < r
      → req.job_id ≡ job_name r
      → (enqueue w r req).0 ≡ length (keep (is_live w.objects) (upcoming w)) + 1
  unfolding enqueue
  enqueue-position n r w req v h id =
      let up = upcoming w in
      let fresh_up = below-ne n r up h (All-split (λ x. x ≤ n) w.called up v.requests.bound).1 in
      let placed =
        put-new w.objects req.job_id r up
          (Named-ne w.objects r up req.job_id id fresh_up v.requests.named) in
      ap length (ap (put req.job_id r) v.requests.listed ∙ placed)
      ∙ length-append (entries w.objects up) ((req.job_id, r) ∷ [])
      ∙ ap (λ k. k + 1) (length-entries w.objects up)
