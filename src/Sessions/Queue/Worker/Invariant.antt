-- ===== src/Sessions/Queue/Worker/Invariant.antt =====
-- The invariant of a worker, and what a change of its state does to it.
use mathlib.Core.List.{append_assoc}
use pycodebridge.Base.{
  ℕ, ◌≤◌, ◌<◌, ◌≢◌, ◌≡◌, refl, sym, ap, ◌∙◌, true, false, List, [], ◌∷◌, ◌++◌, arith, All,
  All-append, subst, Option, none, some, ◌==◌,
}
use pycodebridge.Base.Text.{Text}
use pycodebridge.Base.Dict.{Dict, get, pop, put}
use pycodebridge.Sessions.Queue.{JobRequest, Future, done, job_name}
use pycodebridge.Sessions.Queue.Worker.{Worker, Stage, holding, executing, write, settle, fresh}
use pycodebridge.Sessions.Queue.Worker.Order.{
  Above, Above-skip, Above-concat, Above-right, below-ne, All-le_mono, All-split,
}
use pycodebridge.Sessions.Queue.Worker.Entries.{
  entries, Named, entries-nil, entries-live, put-new, entries-append, entries-write,
  entries-write_ne, All-write, All-write_ne, pop-head, found, Named-ne,
}

abbrev pub in_hand : Stage → List ℕ
in_hand (holding r) = r ∷ []
in_hand _ = []

abbrev pub active_of : Stage → Option ℕ
active_of (executing r) = some r
active_of _ = none

module _ {Job : Type 0} where
  -- The requests that the task has still to look at.
  abbrev pub upcoming : Worker Job → List ℕ
  upcoming w = in_hand w.stage ++ w.queue

  abbrev pub Settled : JobRequest Job → Type 0
  Settled req = req.cancelled ≡ true → done req.future ≡ true

  -- The facts about the requests `up` still to come; `n` is the last number that was given out.
  pub record Holds (n : ℕ) (o : ℕ → JobRequest Job) (called : List ℕ) (pending : Dict ℕ)
      (up : List ℕ) : Type 0 where
    pub order : Above 0 (called ++ up)
    pub bound : All (λ r. r ≤ n) (called ++ up)
    pub named : Named o up
    pub listed : pending ≡ entries o up
    pub clean : All (λ r. (o r).cancelled ≡ false) called
    pub settled : All (λ r. Settled (o r)) up

  pub record IsValid (n : ℕ) (w : Worker Job) : Type 0 where
    pub requests : Holds n w.objects w.called w.pending (upcoming w)
    pub active : w.active ≡ active_of w.stage

  pub fresh-IsValid : (n : ℕ) (o : ℕ → JobRequest Job) → IsValid n (fresh o)
  unfolding fresh
  fresh-IsValid n o = record {
    requests = record {
      order = tt;
      bound = tt;
      named = tt;
      listed = sym (entries-nil o);
      clean = tt;
      settled = tt;
    };
    active = refl;
  }

  -- A write to an object that keeps its id and flag, and does not unset its future.
  pub Holds-write :
      (n r : ℕ) (req : JobRequest Job) (o : ℕ → JobRequest Job) (called : List ℕ) (pending : Dict ℕ)
      (up : List ℕ)
      → req.job_id ≡ (o r).job_id
      → req.cancelled ≡ (o r).cancelled
      → (Settled (o r) → Settled req)
      → Holds n o called pending up
      → Holds n (write o r req) called pending up
  Holds-write n r req o called pending up id flag keeps v = record {
    order = v.order;
    bound = v.bound;
    named = All-write (λ x q. q.job_id ≡ job_name x) o r req up (λ e. id ∙ e) v.named;
    listed = v.listed ∙ sym (entries-write o r req up id flag);
    clean = All-write (λ x q. q.cancelled ≡ false) o r req called (λ e. flag ∙ e) v.clean;
    settled = All-write (λ x q. Settled q) o r req up keeps v.settled;
  }

  pub settle-Settled : (f : Future) (req : JobRequest Job) → Settled req → Settled (settle f req)
  settle-Settled f req s c = ground (arith, s c)

  -- The requests to come where the task waits, holds one, or executes one.
  pub at_stage :
      (n : ℕ) (w : Worker Job) (st : Stage)
      → w.stage ≡ st
      → IsValid n w
      → Holds n w.objects w.called w.pending (in_hand st ++ w.queue)
  at_stage n w st e v =
      subst (λ s. Holds n w.objects w.called w.pending (in_hand s ++ w.queue)) e v.requests

  -- Taking the first request off the list, called or not.
  pub Holds-take :
      (n r : ℕ) (o : ℕ → JobRequest Job) (called : List ℕ) (pending : Dict ℕ) (up : List ℕ)
      → Holds n o called pending (r ∷ up)
      → Holds n o called (pop (o r).job_id pending) up
  Holds-take n r o called pending up v = record {
    order = Above-skip 0 called r up v.order;
    bound =
        let b = All-split (λ x. x ≤ n) called (r ∷ up) v.bound in
        All-append (λ x. x ≤ n) called up b.0 b.1.1;
    named = v.named.1;
    listed =
        ap (pop (o r).job_id) v.listed
        ∙ pop-head o r up (Above-right 0 called (r ∷ up) v.order).1 v.named;
    clean = v.clean;
    settled = v.settled.1;
  }

  pub Holds-call :
      (n r : ℕ) (o : ℕ → JobRequest Job) (called : List ℕ) (pending : Dict ℕ) (up : List ℕ)
      → (o r).cancelled ≡ false
      → Holds n o called pending (r ∷ up)
      → Holds n o (called ++ r ∷ []) (pop (o r).job_id pending) up
  Holds-call n r o called pending up live v = record {
    order = rw append_assoc v.order;
    bound = rw append_assoc v.bound;
    named = v.named.1;
    listed = (Holds-take n r o called pending up v).listed;
    clean = All-append (λ x. (o x).cancelled ≡ false) called (r ∷ []) v.clean (live, tt);
    settled = v.settled.1;
  }

  -- A new request, behind all others.
  pub Holds-new :
      (n r : ℕ) (req : JobRequest Job) (o : ℕ → JobRequest Job) (called : List ℕ) (pending : Dict ℕ)
      (up : List ℕ)
      → n < r
      → req.job_id ≡ job_name r
      → req.cancelled ≡ false
      → Holds n o called pending up
      → Holds r (write o r req) called (put req.job_id r pending) (up ++ r ∷ [])
  Holds-new n r req o called pending up h id live v = record {
    order = rw (← append_assoc) (Above-concat 0 n (called ++ up) r (omega arith) h v.bound v.order);
    bound = rw (← append_assoc) (
        All-append (λ x. x ≤ r) (called ++ up) (r ∷ [])
          (All-le_mono n r (called ++ up) (omega arith) v.bound) (omega arith));
    named =
        All-append (λ x. (o' x).job_id ≡ job_name x) up (r ∷ [])
          (All-write_ne (λ x q. q.job_id ≡ job_name x) o r req up fresh_up v.named)
          (rw at_r (id, tt));
    listed =
        ap (put req.job_id r) v.listed
        ∙ put-new o req.job_id r up (Named-ne o r up req.job_id id fresh_up v.named)
        ∙ sym (
            entries-append o' up (r ∷ [])
            ∙ ap (λ d. d ++ entries o' (r ∷ [])) (entries-write_ne o r req up fresh_up)
            ∙ ap (λ d. entries o up ++ d) new_entry);
    clean =
        All-write_ne (λ x q. q.cancelled ≡ false) o r req called (below-ne n r called h b.0)
          v.clean;
    settled =
        All-append (λ x. Settled (o' x)) up (r ∷ [])
          (All-write_ne (λ x q. Settled q) o r req up fresh_up v.settled) (rw at_r ((λ c. cc), tt));
  }
    where
      o' : ℕ → JobRequest Job
      o' = write o r req

      b : All (λ x. x ≤ n) called × All (λ x. x ≤ n) up
      b = All-split (λ x. x ≤ n) called up v.bound

      fresh_up : All (λ x. x ≢ r) up
      fresh_up = below-ne n r up h b.1

      at_r : (r == r) ≡ true
      at_r = ground arith

      new_entry : entries o' (r ∷ []) ≡ (req.job_id, r) ∷ []
      new_entry = entries-live o' r (rw at_r live) ∙ rw at_r refl

  -- No request that was called is pending.
  pub called_ne :
      (o : ℕ → JobRequest Job) (id : Text) (lo r : ℕ) (called up : List ℕ)
      → Above lo (called ++ up)
      → get id (entries o up) ≡ some r
      → All (λ x. x ≢ r) called
  called_ne o id lo r [] up a e = tt
  called_ne o id lo r (c ∷ called) up a e =
      let f = found o id c up r (Above-right c called up a.1) e in
      (omega (arith, f.above), called_ne o id c r called up a.1 e)

  pub IsValid-mono : (m n : ℕ) (w : Worker Job) → m ≤ n → IsValid m w → IsValid n w
  IsValid-mono m n w h v = record {
    requests = record {
      order = v.requests.order;
      bound = All-le_mono m n (w.called ++ upcoming w) h v.requests.bound;
      named = v.requests.named;
      listed = v.requests.listed;
      clean = v.requests.clean;
      settled = v.requests.settled;
    };
    active = v.active;
  }
