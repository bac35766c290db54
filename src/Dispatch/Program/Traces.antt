-- ===== src/Dispatch/Program/Traces.antt =====
-- Events that are counted, and interleavings of traces.
use pycodebridge.Base.{ℕ, ◌+◌, ◌≡◌, refl, arith, Bool, List, [], ◌∷◌, ◌++◌, map, if◌then◌else◌}

-- How many elements pass a test.
unfoldable pub count {ℓ} : {A : Type ℓ} → (A → Bool) → List A → ℕ
count p [] = 0
count p (x ∷ xs) = if p x then 1 + count p xs else count p xs

unfoldable pub total : List ℕ → ℕ
total [] = 0
total (n ∷ ns) = n + total ns

-- `Zip t u v`: `v` is an interleaving of `t` and `u`.
pub data Zip {ℓ} {A : Type ℓ} : List A → List A → List A → Type ℓ where
  ends : Zip [] [] []
  left : {x : A} {t u v : List A} → Zip t u v → Zip (x ∷ t) u (x ∷ v)
  right : {x : A} {t u v : List A} → Zip t u v → Zip t (x ∷ u) (x ∷ v)

-- `Interleaved ts v`: `v` has the elements of all of `ts`, those of each one in their order.
pub data Interleaved {ℓ} {A : Type ℓ} : List (List A) → List A → Type ℓ where
  none_left : Interleaved [] []
  weave :
      {t u v : List A} {ts : List (List A)} → Interleaved ts u → Zip t u v → Interleaved (t ∷ ts) v

pub count-Zip {ℓ} :
    {A : Type ℓ} (p : A → Bool) (t u v : List A) → Zip t u v → count p v ≡ count p t + count p u
unfolding count
count-Zip p _ _ _ ends = refl
count-Zip p _ _ _ (left {x} {t} {u} {v} z) = let rest = count-Zip p t u v z in ground arith
count-Zip p _ _ _ (right {x} {t} {u} {v} z) = let rest = count-Zip p t u v z in ground arith

pub count-Interleaved {ℓ} :
    {A : Type ℓ} (p : A → Bool) (ts : List (List A)) (v : List A)
    → Interleaved ts v
    → count p v ≡ total (map (count p) ts)
unfolding count total
count-Interleaved p _ _ none_left = refl
count-Interleaved p _ _ (weave {t} {u} {v} {ts} i z) =
    let rest = count-Interleaved p ts u i in let both = count-Zip p t u v z in omega arith

pub count-append {ℓ} :
    {A : Type ℓ} (p : A → Bool) (xs ys : List A) → count p (xs ++ ys) ≡ count p xs + count p ys
unfolding count
count-append p [] ys = omega arith
count-append p (x ∷ xs) ys = let rest = count-append p xs ys in ground arith
