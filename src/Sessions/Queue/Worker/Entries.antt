-- ===== src/Sessions/Queue/Worker/Entries.antt =====
-- The pending entries that a list of requests has, and how writes to the store change them.
use pycodebridge.Base.{
  ℕ, ◌<◌, ◌≢◌, ◌≡◌, refl, sym, ap, ◌∙◌, inl, inr, Bool, true, false, List, [], ◌∷◌, ◌++◌, arith,
  All, keep, not, length, drop, subst, ==_iff, some, ◌==◌, if◌then◌else◌, Bool-cases,
}
use pycodebridge.Base.Text.{Text, str, text_eq, text_eq_iff, text_eq_refl, drop-append}
use pycodebridge.Base.Dict.{Dict, get, pop, put, values, ne_test}
use pycodebridge.Base.Decimal.{show, show_injective}
use pycodebridge.Sessions.Queue.{JobRequest, job_name}
use pycodebridge.Sessions.Queue.Worker.{write}
use pycodebridge.Sessions.Queue.Worker.Order.{Above, Above-ne}

-- Two jobs with one id have one number.
pub job_name_injective : (m n : ℕ) → job_name m ≡ job_name n → m ≡ n
unfolding job_name
job_name_injective m n e =
    show_injective m n
      (sym (drop-append (str "job-") (show m)) ∙ ap (drop 4) e ∙ drop-append (str "job-") (show n))

module _ {Job : Type 0} where
  -- The entries of the requests that are not cancelled.
  pub entries : (ℕ → JobRequest Job) → List ℕ → Dict ℕ
  entries o [] = []
  entries o (r ∷ rs) =
      let rest = entries o rs in if (o r).cancelled then rest else ((o r).job_id, r) ∷ rest

  -- Each request has the id that its number gives.
  abbrev pub Named : (ℕ → JobRequest Job) → List ℕ → Type 0
  Named o rs = All (λ r. (o r).job_id ≡ job_name r) rs

  pub entries-nil : (o : ℕ → JobRequest Job) → entries o [] ≡ []
  unfolding entries
  entries-nil o = refl

  pub entries-live :
      (o : ℕ → JobRequest Job) (r : ℕ)
      → (o r).cancelled ≡ false
      → entries o (r ∷ []) ≡ ((o r).job_id, r) ∷ []
  unfolding entries
  entries-live o r e = rw e

  pub entries-append :
      (o : ℕ → JobRequest Job) (xs ys : List ℕ)
      → entries o (xs ++ ys) ≡ entries o xs ++ entries o ys
  unfolding entries
  entries-append o [] ys = refl
  entries-append o (x ∷ xs) ys = ground (arith, entries-append o xs ys)

  -- A write that keeps the id and the flag changes no entry.
  pub entries-write :
      (o : ℕ → JobRequest Job) (r : ℕ) (req : JobRequest Job) (xs : List ℕ)
      → req.job_id ≡ (o r).job_id
      → req.cancelled ≡ (o r).cancelled
      → entries (write o r req) xs ≡ entries o xs
  unfolding entries
  entries-write o r req [] e f = refl
  entries-write o r req (x ∷ xs) e f = ground (arith, entries-write o r req xs e f)

  -- Nor does a write to a request that is not in the list.
  pub entries-write_ne :
      (o : ℕ → JobRequest Job) (r : ℕ) (req : JobRequest Job) (xs : List ℕ)
      → All (λ x. x ≢ r) xs
      → entries (write o r req) xs ≡ entries o xs
  unfolding entries
  entries-write_ne o r req [] h = refl
  entries-write_ne o r req (x ∷ xs) h = ground (arith, entries-write_ne o r req xs h.1)

  pub All-write {κ} :
      (P : ℕ → JobRequest Job → Type κ) (o : ℕ → JobRequest Job) (r : ℕ) (req : JobRequest Job)
      (xs : List ℕ)
      → (P r (o r) → P r req)
      → All (λ x. P x (o x)) xs
      → All (λ x. P x (write o r req x)) xs
  All-write P o r req [] h a = tt
  All-write P o r req (x ∷ xs) h a = (
    elim (Bool-cases (r == x)) [
      | inl e ↦
          let q : r ≡ x = (==_iff r x).0 e in
          rw e (subst (λ y. P y req) q (h (subst (λ y. P y (o y)) (sym q) a.0)))
      | inr e ↦ rw e a.0
    ],
    All-write P o r req xs h a.1,
  )

  pub All-write_ne {κ} :
      (P : ℕ → JobRequest Job → Type κ) (o : ℕ → JobRequest Job) (r : ℕ) (req : JobRequest Job)
      (xs : List ℕ)
      → All (λ x. x ≢ r) xs
      → All (λ x. P x (o x)) xs
      → All (λ x. P x (write o r req x)) xs
  All-write_ne P o r req [] h a = tt
  All-write_ne P o r req (x ∷ xs) h a = (
    elim (Bool-cases (r == x)) [ inl e ↦ absurd (h.0 (sym ((==_iff r x).0 e))) | inr e ↦ rw e a.0 ],
    All-write_ne P o r req xs h.1 a.1,
  )

  pub pop-absent :
      (o : ℕ → JobRequest Job) (k : Text) (xs : List ℕ)
      → All (λ x. (o x).job_id ≢ k) xs
      → pop k (entries o xs) ≡ entries o xs
  unfolding entries pop
  pop-absent o k [] h = refl
  pop-absent o k (x ∷ xs) h = ground (arith, ne_test (o x).job_id k h.0, pop-absent o k xs h.1)

  -- Requests with other numbers have other ids.
  pub Named-ne :
      (o : ℕ → JobRequest Job) (r : ℕ) (xs : List ℕ) (k : Text)
      → k ≡ job_name r
      → All (λ x. x ≢ r) xs
      → Named o xs
      → All (λ x. (o x).job_id ≢ k) xs
  Named-ne o r [] k e h n = tt
  Named-ne o r (x ∷ xs) k e h n =
      (λ q. h.0 (job_name_injective x r (sym n.0 ∙ q ∙ e)), Named-ne o r xs k e h.1 n.1)

  -- The entry of the first request is all that goes with its id.
  pub pop-head :
      (o : ℕ → JobRequest Job) (r : ℕ) (xs : List ℕ)
      → Above r xs
      → Named o (r ∷ xs)
      → pop (o r).job_id (entries o (r ∷ xs)) ≡ entries o xs
  unfolding entries pop
  pop-head o r xs a n =
      let absent =
        pop-absent o (o r).job_id xs
          (Named-ne o r xs (o r).job_id n.0 (Above-ne r r xs (omega arith) a) n.1) in
      ground (arith, absent, text_eq_refl (o r).job_id)

  -- What `pending` finds is a request of the list, with that id, that is not cancelled.
  pub record IsFound (o : ℕ → JobRequest Job) (k : Text) (lo r : ℕ) : Type 0 where
    pub above : lo < r
    pub id : (o r).job_id ≡ k
    pub live : (o r).cancelled ≡ false

  pub found :
      (o : ℕ → JobRequest Job) (k : Text) (lo : ℕ) (xs : List ℕ) (r : ℕ)
      → Above lo xs
      → get k (entries o xs) ≡ some r
      → IsFound o k lo r
  unfolding entries get
  found o k lo [] r a e = cc
  found o k lo (x ∷ xs) r a e = elim (Bool-cases (o x).cancelled) [
    | inl c ↦ skip (found o k x xs r a.1 (rw c at e))
    | inr c ↦ elim (Bool-cases (text_eq (o x).job_id k)) [
      | inl t ↦ here c t (rw (c, t) at e)
      | inr t ↦ skip (found o k x xs r a.1 (rw (c, t) at e))
    ]
  ]
    where
      skip : IsFound o k x r → IsFound o k lo r
      skip f = record { above = omega (arith, f.above); id = f.id; live = f.live }

      here :
          (o x).cancelled ≡ false
          → text_eq (o x).job_id k ≡ true
          → some x ≡ some r
          → IsFound o k lo r
      here c t q =
          let p : x ≡ r = cc in
          record {
            above = rw (← p) a.0;
            id = rw (← p) ((text_eq_iff (o x).job_id k).0 t);
            live = rw (← p) c;
          }

  -- Cancelling takes the entry of one request away, and nothing else.
  pub pop-cancel :
      (o : ℕ → JobRequest Job) (k : Text) (lo : ℕ) (xs : List ℕ) (r : ℕ) (req : JobRequest Job)
      → Above lo xs
      → Named o xs
      → req.cancelled ≡ true
      → get k (entries o xs) ≡ some r
      → pop k (entries o xs) ≡ entries (write o r req) xs
  unfolding entries pop get
  pop-cancel o k lo [] r req a n c e = refl
  pop-cancel o k lo (x ∷ xs) r req a n c e = elim (Bool-cases (o x).cancelled) [
    | inl d ↦ later (rw d at e) (pop-cancel o k x xs r req a.1 n.1 c (rw d at e))
    | inr d ↦ elim (Bool-cases (text_eq (o x).job_id k)) [
      | inl t ↦ here d t (rw (d, t) at e)
      | inr t ↦ later (rw (d, t) at e) (pop-cancel o k x xs r req a.1 n.1 c (rw (d, t) at e))
    ]
  ]
    where
      later :
          get k (entries o xs) ≡ some r
          → pop k (entries o xs) ≡ entries (write o r req) xs
          → pop k (entries o (x ∷ xs)) ≡ entries (write o r req) (x ∷ xs)
      later q ih = let f = found o k x xs r a.1 q in ground (arith, f.above, ih, f.id, f.live)

      here :
          (o x).cancelled ≡ false
          → text_eq (o x).job_id k ≡ true
          → some x ≡ some r
          → pop k (entries o (x ∷ xs)) ≡ entries (write o r req) (x ∷ xs)
      here d t q =
          let p : x ≡ r = cc in
          let named : k ≡ job_name x = sym ((text_eq_iff (o x).job_id k).0 t) ∙ n.0 in
          let absent =
            pop-absent o k xs (Named-ne o x xs k named (Above-ne x x xs (omega arith) a.1) n.1) in
          let other = entries-write_ne o r req xs (Above-ne x r xs (omega arith) a.1) in
          ground (arith, absent, other, c)

  -- A new id goes to the end.
  pub put-new :
      (o : ℕ → JobRequest Job) (k : Text) (r : ℕ) (xs : List ℕ)
      → All (λ x. (o x).job_id ≢ k) xs
      → put k r (entries o xs) ≡ entries o xs ++ (k, r) ∷ []
  unfolding entries put
  put-new o k r [] h = refl
  put-new o k r (x ∷ xs) h = ground (arith, ne_test (o x).job_id k h.0, put-new o k r xs h.1)

  -- What holds of every request of the list holds of one that is found.
  pub found_all {κ} :
      (P : ℕ → Type κ) (o : ℕ → JobRequest Job) (k : Text) (xs : List ℕ) (r : ℕ)
      → All P xs
      → get k (entries o xs) ≡ some r
      → P r
  unfolding entries get
  found_all P o k [] r a e = cc
  found_all P o k (x ∷ xs) r a e = elim (Bool-cases (o x).cancelled) [
    | inl c ↦ found_all P o k xs r a.1 (rw c at e)
    | inr c ↦ elim (Bool-cases (text_eq (o x).job_id k)) [
      | inl t ↦ here (rw (c, t) at e)
      | inr t ↦ found_all P o k xs r a.1 (rw (c, t) at e)
    ]
  ]
    where
      here : some x ≡ some r → P r
      here q = let p : x ≡ r = cc in subst P p a.0

  abbrev pub is_live : (ℕ → JobRequest Job) → ℕ → Bool
  is_live o r = not (o r).cancelled

  pub values-entries :
      (o : ℕ → JobRequest Job) (xs : List ℕ) → values (entries o xs) ≡ keep (is_live o) xs
  unfolding entries
  values-entries o [] = refl
  values-entries o (x ∷ xs) = ground (arith, values-entries o xs)

  pub length-entries :
      (o : ℕ → JobRequest Job) (xs : List ℕ) → length (entries o xs) ≡ length (keep (is_live o) xs)
  unfolding entries
  length-entries o [] = refl
  length-entries o (x ∷ xs) = ground (arith, length-entries o xs)

  pub none_live :
      (o : ℕ → JobRequest Job) (xs : List ℕ)
      → entries o xs ≡ []
      → All (λ r. (o r).cancelled ≡ true) xs
  unfolding entries
  none_live o [] e = tt
  none_live o (x ∷ xs) e = elim (Bool-cases (o x).cancelled) [
    | inl c ↦ (c, none_live o xs (rw c at e))
    | inr c ↦ cc (rw c at e)
  ]
