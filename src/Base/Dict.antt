-- ===== src/Base/Dict.antt =====
-- A Python `dict` with text keys: insertion order, one entry for each key.
pub mod Distinct
use mathlib.Core.Path.{◌≡◌, refl, subst}
use mathlib.Core.Bool.{Bool, false}
use mathlib.Core.Logic.{◌≢◌, inl, inr}
use mathlib.Core.Option.{Option, none, some}
use mathlib.Core.List.{List, [], ◌∷◌, map}
use native.Mathlib.Omega.{arith}
use pycodebridge.Base.Tests.{if◌then◌else◌, is_some, Bool-cases, if_intro}
use pycodebridge.Base.Lists.{All, keep}
use pycodebridge.Base.Text.{Text, text_eq, text_eq_iff, text_eq_refl}

abbrev pub Dict {ℓ} : Type ℓ → Type ℓ
Dict V = List (Text × V)

module _ {ℓ} {V : Type ℓ} where
  -- d.get(k)
  unfoldable pub get : Text → Dict V → Option V
  get k [] = none
  get k ((j, v) ∷ d) = if text_eq j k then some v else get k d

  -- d[k] = v: a key that is there keeps its place, a new one goes to the end.
  unfoldable pub put : Text → V → Dict V → Dict V
  put k v [] = (k, v) ∷ []
  put k v ((j, w) ∷ d) = if text_eq j k then (j, v) ∷ d else (j, w) ∷ put k v d

  -- d.pop(k, None), without the value
  unfoldable pub pop : Text → Dict V → Dict V
  pop k [] = []
  pop k ((j, v) ∷ d) = let rest = pop k d in if text_eq j k then rest else (j, v) ∷ rest

  -- k in d
  abbrev pub has : Text → Dict V → Bool
  has k d = is_some (get k d)

  abbrev pub keys : Dict V → List Text
  keys d = map (λ e. e.0) d

  abbrev pub values : Dict V → List V
  values d = map (λ e. e.1) d

  pub get-put :
      (k j : Text) (v : V) (d : Dict V)
      → get j (put k v d) ≡ (if text_eq k j then some v else get j d)
  unfolding get put
  get-put k j v [] = refl
  get-put k j v ((i, w) ∷ d) =
      ground (arith, text_eq_iff k j, text_eq_iff i k, text_eq_iff i j, get-put k j v d)

  pub get-pop :
      (k j : Text) (d : Dict V) → get j (pop k d) ≡ (if text_eq k j then none else get j d)
  unfolding get pop
  get-pop k j [] = ground arith
  get-pop k j ((i, w) ∷ d) =
      ground (arith, text_eq_iff k j, text_eq_iff i k, text_eq_iff i j, get-pop k j d)

pub ne_test : (k j : Text) → k ≢ j → text_eq k j ≡ false
ne_test k j ne = ground (arith, text_eq_iff k j)

module _ {ℓ} {V : Type ℓ} (k j : Text) (ne : k ≢ j) where
  pub get-put_ne : (v : V) (d : Dict V) → get j (put k v d) ≡ get j d
  get-put_ne v d = rw (get-put, ne_test k j ne)

  pub get-pop_ne : (d : Dict V) → get j (pop k d) ≡ get j d
  get-pop_ne d = rw (get-pop, ne_test k j ne)

module _ {ℓ} {V : Type ℓ} (k : Text) where
  pub get-put_self : (v : V) (d : Dict V) → get k (put k v d) ≡ some v
  get-put_self v d = rw (get-put, text_eq_refl)

  pub get-pop_self : (d : Dict V) → get k (pop k d) ≡ none
  get-pop_self d = rw (get-pop, text_eq_refl)

pub get-empty {ℓ} : {V : Type ℓ} (k : Text) → get {V = V} k [] ≡ none
unfolding get
get-empty k = refl

pub ruleset dict_laws = (get-empty, get-put, get-pop)

-- A property of every value of a dictionary.
abbrev pub Values {ℓ κ} : {V : Type ℓ} → (V → Type κ) → Dict V → Type κ
Values P d = All (λ e. P e.1) d

same {ℓ} : {V : Type ℓ} (v w : V) → some v ≡ some w → v ≡ w
same v w e = cc

module _ {ℓ κ} {V : Type ℓ} (P : V → Type κ) where
  pub Values-get : (k : Text) (v : V) (d : Dict V) → Values P d → get k d ≡ some v → P v
  unfolding get
  Values-get k v [] a e = cc
  Values-get k v ((j, w) ∷ d) a e = elim (Bool-cases (text_eq j k)) [
    | inl t ↦ subst P (same w v (rw t at e)) a.0
    | inr t ↦ Values-get k v d a.1 (rw t at e)
  ]

  pub Values-put : (k : Text) (v : V) (d : Dict V) → Values P d → P v → Values P (put k v d)
  unfolding put
  Values-put k v [] a p = (p, tt)
  Values-put k v ((j, w) ∷ d) a p =
      if_intro (Values P) (text_eq j k) ((j, v) ∷ d) ((j, w) ∷ put k v d) (λ _. (p, a.1))
        (λ _. (a.0, Values-put k v d a.1 p))

  pub Values-pop : (k : Text) (d : Dict V) → Values P d → Values P (pop k d)
  unfolding pop
  Values-pop k [] a = tt
  Values-pop k ((j, w) ∷ d) a =
      if_intro (Values P) (text_eq j k) (pop k d) ((j, w) ∷ pop k d) (λ _. Values-pop k d a.1)
        (λ _. (a.0, Values-pop k d a.1))

  pub Values-keep : (t : Text × V → Bool) (d : Dict V) → Values P d → Values P (keep t d)
  Values-keep t [] a = tt
  Values-keep t (e ∷ d) a =
      if_intro (Values P) (t e) (e ∷ keep t d) (keep t d) (λ _. (a.0, Values-keep t d a.1))
        (λ _. Values-keep t d a.1)
