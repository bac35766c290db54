-- ===== src/Sessions/Tracking/Lookup.antt =====
-- Lookups in nested dictionaries after a merge, a move and a removal.
use pycodebridge.Base.{
  true, false, ◌&&◌, ◌≡◌, ◌≢◌, refl, ◌∙◌, arith, inl, inr, [], ◌∷◌, Option, none, some,
  if◌then◌else◌, ◌⊎◌, Bool-cases, Option-cases,
}
use pycodebridge.Base.Text.{Text, text_eq, text_eq_iff}
use pycodebridge.Base.Dict.{Dict, get, put, pop, has, get-put, get-pop, get-empty, ne_test}
use pycodebridge.Routing.Repos.{is_nil}
use pycodebridge.Sessions.Tracking.{or_empty, merge, move_found, drop_found}

-- The first of two that is there.
abbrev pub or_else {ℓ} : {A : Type ℓ} → Option A → Option A → Option A
or_else (some a) b = some a
or_else none b = b

-- `d.get(c, {}).get(s)`
abbrev pub lookup {ℓ} : {V : Type ℓ} → Dict (Dict V) → Text → Text → Option V
lookup d c s = get s (or_empty (get c d))

-- What channel `c` has for `s` once everything of `from` moved to `to`, where what `to` has stays.
abbrev pub moved_at {ℓ} :
    {A : Type ℓ} → Text → Text → (Text → Text → Option A) → Text → Text → Option A
moved_at from to f c s =
    if text_eq from c then none else if text_eq to c then or_else (f to s) (f from s) else f c s

module _ {ℓ} {V : Type ℓ} where
  nil_lookup : (d : Dict V) (s : Text) → is_nil d ≡ true → get s d ≡ none
  nil_lookup [] s e = get-empty s
  nil_lookup (x ∷ d) s e = cc

  pub get-merge :
      (k : Text) (from target : Dict V)
      → get k (merge from target) ≡ or_else (get k target) (get k from)
  unfolding merge
  get-merge k [] target = elim (Option-cases (get k target)) [
    | inl e ↦ rw (e, get-empty k) refl
    | inr (v, e) ↦ rw e refl
  ]
  get-merge k ((j, v) ∷ from) target =
      get-merge k from (if has j target then target else put j v target)
      ∙ elim (Option-cases (get j target)) [
        | inl e ↦
            rw (e, get-put)
              (unfold get in ground (arith, e, text_eq_iff j k, Option-cases (get k target)))
        | inr (w, e) ↦
            rw e (unfold get in ground (arith, e, text_eq_iff j k, Option-cases (get k target)))
      ]

  pub lookup-move :
      (from to : Text) (d : Dict (Dict V)) (c s : Text)
      → from ≢ to
      → lookup (move_found from to d (get from d)).1 c s ≡ moved_at from to (lookup d) c s
  unfolding move_found
  lookup-move from to d c s ne = elim (Option-cases (get from d)) [
    | inl e ↦ rw e (
        ground (
          arith,
          e,
          get-empty {V = V} s,
          text_eq_iff from c,
          text_eq_iff to c,
          Option-cases (get s (or_empty (get to d))),
        ))
    | inr (items, e) ↦
        rw (e, get-put, get-pop, get-pop, ne_test from to ne)
          (ground (
            arith,
            text_eq_iff from c,
            text_eq_iff to c,
            get-empty {V = V} s,
            get-merge s items (or_empty (get to d)),
          ))
  ]

  pub lookup-drop :
      (c s : Text) (d : Dict (Dict V)) (c' s' : Text)
      → lookup (drop_found c s d (get c d)) c' s'
        ≡ (if text_eq c c' && text_eq s s' then none else lookup d c' s')
  unfolding drop_found
  lookup-drop c s d c' s' = elim (Option-cases (get c d)) [
    | inl e ↦ rw e (ground (arith, e, text_eq_iff c c', get-empty {V = V} s'))
    | inr (inner, e) ↦ rw e (kept inner e (Bool-cases (is_nil (pop s inner))))
  ]
    where
      kept :
          (inner : Dict V)
          → get c d ≡ some inner
          → (is_nil (pop s inner) ≡ true) ⊎ (is_nil (pop s inner) ≡ false)
          → lookup (if is_nil (pop s inner) then pop c d else put c (pop s inner) d) c' s'
            ≡ (if text_eq c c' && text_eq s s' then none else lookup d c' s')
      kept inner e (inl t) =
          rw (t, get-pop)
            (ground (
              arith,
              e,
              text_eq_iff c c',
              get-empty {V = V} s',
              get-pop s s' inner,
              nil_lookup (pop s inner) s' t,
            ))
      kept inner e (inr t) =
          rw (t, get-put) (ground (arith, e, text_eq_iff c c', get-pop s s' inner))
