-- ===== src/Sessions/Queue/Worker/Steps.antt =====
-- The steps of a worker and of its clients, each of which keeps the invariant.
use mathlib.Core.List.{append_assoc}
use pycodebridge.Base.{
  ℕ, ◌<◌, ◌≡◌, refl, sym, ap, ◌∙◌, inl, inr, true, false, ◌&&◌, List, [], ◌∷◌, ◌++◌, arith, subst,
  Option, none, some, Bool-cases, if_intro,
}
use pycodebridge.Base.Text.{Text, str}
use pycodebridge.Base.Dict.{get, pop}
use pycodebridge.Sessions.Queue.{JobRequest, result, failed, abandoned, done, job_name}
use pycodebridge.Sessions.Queue.Worker.{
  Worker, Stage, waiting, holding, executing, stopped, Outcome, returned, raised, killed, write,
  settle, enqueue, time_out, fetch, finally, begin, finish, cancel, cancel_found, fetch_from,
  abandon, none_active, is_nil,
}
use pycodebridge.Sessions.Queue.Worker.Order.{Above-right}
use pycodebridge.Sessions.Queue.Worker.Entries.{entries, All-write, All-write_ne, pop-cancel}
use pycodebridge.Sessions.Queue.Worker.Invariant.{
  in_hand, active_of, upcoming, Settled, Holds, IsValid, Holds-write, settle-Settled, at_stage,
  Holds-take, Holds-call, Holds-new, called_ne,
}

module _ {Job : Type 0} where
  -- One step: of the event loop, of the task, or of a client. `enqueued` is the manager's call
  -- with a new number.
  pub data Step : ℕ → Worker Job → ℕ → Worker Job → Type 0 where
    enqueued :
        (n r : ℕ) (w : Worker Job) (req : JobRequest Job)
        → n < r
        → req.job_id ≡ job_name r
        → req.cancelled ≡ false
        → Step n w r (enqueue w r req).1
    timed_out : (n : ℕ) (w : Worker Job) → w.stage ≡ waiting → Step n w n (time_out w)
    fetched : (n : ℕ) (w : Worker Job) → w.stage ≡ waiting → Step n w n (fetch w)
    begun : (n r now : ℕ) (w : Worker Job) → w.stage ≡ holding r → Step n w n (begin r now w)
    finished :
        (n r now : ℕ) (o : Outcome) (w : Worker Job)
        → w.stage ≡ executing r
        → Step n w n (finish r o now w)
    cancels : (n : ℕ) (id : Text) (w : Worker Job) → Step n w n (cancel w id).1
    abandons : (n r : ℕ) (w : Worker Job) → Step n w n (abandon r w)

  pub data Reach (n : ℕ) (w : Worker Job) : ℕ → Worker Job → Type 0 where
    here : Reach n w n w
    next : {m k : ℕ} {u v : Worker Job} → Reach n w m u → Step m u k v → Reach n w k v

  abandon-IsValid : (n r : ℕ) (w : Worker Job) → IsValid n w → IsValid n (abandon r w)
  unfolding abandon
  abandon-IsValid n r w v = record {
    requests =
        Holds-write n r (settle abandoned (w.objects r)) w.objects w.called w.pending (upcoming w)
          refl refl (settle-Settled abandoned (w.objects r)) v.requests;
    active = v.active;
  }

  time_out-IsValid :
      (n : ℕ) (w : Worker Job) → w.stage ≡ waiting → IsValid n w → IsValid n (time_out w)
  unfolding time_out
  time_out-IsValid n w at v = elim (Bool-cases (none_active w.active && is_nil w.pending)) [
    | inl t ↦
        rw t (record { requests = at_stage n w waiting at v; active = v.active ∙ ap active_of at })
    | inr t ↦ rw t v
  ]

  fetch_from-IsValid :
      (n : ℕ) (w : Worker Job) (q : List ℕ)
      → w.stage ≡ waiting
      → IsValid n w
      → q ≡ w.queue
      → IsValid n (fetch_from w q)
  unfolding fetch_from
  fetch_from-IsValid n w [] at v e = v
  fetch_from-IsValid n w (r ∷ rest) at v e = record {
    requests = subst (Holds n w.objects w.called w.pending) (sym e) (at_stage n w waiting at v);
    active = v.active ∙ ap active_of at;
  }

  finally-IsValid :
      (n r now : ℕ) (st : Stage) (w : Worker Job)
      → in_hand st ≡ []
      → active_of st ≡ none
      → Holds n w.objects w.called w.pending w.queue
      → IsValid n (finally r now st w)
  unfolding finally
  finally-IsValid n r now st w e a h = record {
    requests = rw e (
        Holds-write n r (record (w.objects r) { ended_at = now }) w.objects w.called w.pending
          w.queue refl refl (λ k. k) h);
    active = sym a;
  }

  begin-IsValid :
      (n r now : ℕ) (w : Worker Job) → w.stage ≡ holding r → IsValid n w → IsValid n (begin r now w)
  unfolding begin
  begin-IsValid n r now w at v =
      if_intro (IsValid n) (w.objects r).cancelled (finally r now waiting taken)
        (record taken { stage = executing r; called = w.called ++ r ∷ [] })
        (λ c.
          finally-IsValid n r now waiting taken refl refl
            (started w.called (Holds-take n r w.objects w.called w.pending w.queue first)))
        (λ c. record {
          requests =
              started (w.called ++ r ∷ [])
                (Holds-call n r w.objects w.called w.pending w.queue c first);
          active = refl;
        })
    where
      req : JobRequest Job
      req = record (w.objects r) { started_at = now }

      taken : Worker Job
      taken = record w {
        objects = write w.objects r req;
        pending = pop (w.objects r).job_id w.pending;
        active = some r;
      }

      first : Holds n w.objects w.called w.pending (r ∷ w.queue)
      first = at_stage n w (holding r) at v

      started :
          (called : List ℕ)
          → Holds n w.objects called (pop (w.objects r).job_id w.pending) w.queue
          → Holds n (write w.objects r req) called (pop (w.objects r).job_id w.pending) w.queue
      started called =
          Holds-write n r req w.objects called (pop (w.objects r).job_id w.pending) w.queue refl
            refl (λ k. k)

  finish-IsValid :
      (n r now : ℕ) (o : Outcome) (w : Worker Job)
      → w.stage ≡ executing r
      → IsValid n w
      → IsValid n (finish r o now w)
  unfolding finish
  finish-IsValid n r now returned w at v =
      finally-IsValid n r now waiting
        (record w { objects = write w.objects r (settle result (w.objects r)) }) refl refl
        (Holds-write n r (settle result (w.objects r)) w.objects w.called w.pending w.queue refl
          refl (settle-Settled result (w.objects r)) (at_stage n w (executing r) at v))
  finish-IsValid n r now (raised e) w at v =
      finally-IsValid n r now waiting
        (record w { objects = write w.objects r (settle (failed e) (w.objects r)) }) refl refl
        (Holds-write n r (settle (failed e) (w.objects r)) w.objects w.called w.pending w.queue refl
          refl (settle-Settled (failed e) (w.objects r)) (at_stage n w (executing r) at v))
  finish-IsValid n r now killed w at v =
      finally-IsValid n r now stopped w refl refl (at_stage n w (executing r) at v)

  enqueue-IsValid :
      (n r : ℕ) (w : Worker Job) (req : JobRequest Job)
      → n < r
      → req.job_id ≡ job_name r
      → req.cancelled ≡ false
      → IsValid n w
      → IsValid r (enqueue w r req).1
  unfolding enqueue
  enqueue-IsValid n r w req h id live v = record {
    requests =
        rw (← append_assoc)
          (Holds-new n r req w.objects w.called w.pending (upcoming w) h id live v.requests);
    active = v.active;
  }

  cancel_found-IsValid :
      (n : ℕ) (id : Text) (w : Worker Job) (p : Option ℕ)
      → get id w.pending ≡ p
      → IsValid n w
      → IsValid n (cancel_found w id p).1
  unfolding cancel_found
  cancel_found-IsValid n id w none e v = v
  cancel_found-IsValid n id w (some r) e v = record {
    requests = record {
      order = h.order;
      bound = h.bound;
      named =
          All-write (λ x q. q.job_id ≡ job_name x) w.objects r req (upcoming w) (λ k. k) h.named;
      listed =
          ap (pop id) h.listed
          ∙ pop-cancel w.objects id 0 (upcoming w) r req
              (Above-right 0 w.called (upcoming w) h.order) h.named refl q;
      clean =
          All-write_ne (λ x q. q.cancelled ≡ false) w.objects r req w.called
            (called_ne w.objects id 0 r w.called (upcoming w) h.order q) h.clean;
      settled =
          All-write (λ x q. Settled q) w.objects r req (upcoming w) (λ k c. settle_done) h.settled;
    };
    active = v.active;
  }
    where
      h : Holds n w.objects w.called w.pending (upcoming w)
      h = v.requests

      req : JobRequest Job
      req = settle (failed (str "cancelled")) (record (w.objects r) { cancelled = true })

      q : get id (entries w.objects (upcoming w)) ≡ some r
      q = ap (get id) (sym h.listed) ∙ e

      settle_done : done req.future ≡ true
      settle_done = ground arith

  cancel-IsValid : (n : ℕ) (id : Text) (w : Worker Job) → IsValid n w → IsValid n (cancel w id).1
  unfolding cancel
  cancel-IsValid n id w v = cancel_found-IsValid n id w (get id w.pending) refl v

  pub Step-IsValid : {n m : ℕ} {w u : Worker Job} → Step n w m u → IsValid n w → IsValid m u
  Step-IsValid (enqueued n r w req h id live) v = enqueue-IsValid n r w req h id live v
  Step-IsValid (timed_out n w at) v = time_out-IsValid n w at v
  Step-IsValid (fetched n w at) v = unfold fetch in fetch_from-IsValid n w w.queue at v refl
  Step-IsValid (begun n r now w at) v = begin-IsValid n r now w at v
  Step-IsValid (finished n r now o w at) v = finish-IsValid n r now o w at v
  Step-IsValid (cancels n id w) v = cancel-IsValid n id w v
  Step-IsValid (abandons n r w) v = abandon-IsValid n r w v

  pub Reach-IsValid :
      {n : ℕ} {w : Worker Job} {m : ℕ} {u : Worker Job} → IsValid n w → Reach n w m u → IsValid m u
  Reach-IsValid v here = v
  Reach-IsValid v (next r s) = Step-IsValid s (Reach-IsValid v r)
