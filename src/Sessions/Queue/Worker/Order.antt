-- ===== src/Sessions/Queue/Worker/Order.antt =====
-- Rising lists of numbers.
use pycodebridge.Base.{ℕ, ◌≤◌, ◌<◌, ◌≢◌, List, [], ◌∷◌, ◌++◌, arith, All}

-- Each number is above the one before it, the first above `lo`.
abbrev pub Above : ℕ → List ℕ → Type 0
Above lo [] = Unit
Above lo (x ∷ xs) = (lo < x) × Above x xs

pub Above-mono : (lo hi : ℕ) (xs : List ℕ) → lo ≤ hi → Above hi xs → Above lo xs
Above-mono lo hi [] h a = tt
Above-mono lo hi (x ∷ xs) h a = (omega arith, a.1)

pub Above-skip :
    (lo : ℕ) (xs : List ℕ) (y : ℕ) (ys : List ℕ) → Above lo (xs ++ y ∷ ys) → Above lo (xs ++ ys)
Above-skip lo [] y ys a = Above-mono lo y ys (omega arith) a.1
Above-skip lo (x ∷ xs) y ys a = (a.0, Above-skip x xs y ys a.1)

pub Above-concat :
    (lo n : ℕ) (xs : List ℕ) (r : ℕ)
    → lo ≤ n
    → n < r
    → All (λ x. x ≤ n) xs
    → Above lo xs
    → Above lo (xs ++ r ∷ [])
Above-concat lo n [] r l h b a = (omega arith, tt)
Above-concat lo n (x ∷ xs) r l h b a = (a.0, Above-concat x n xs r b.0 h b.1 a.1)

pub Above-right : (lo : ℕ) (xs ys : List ℕ) → Above lo (xs ++ ys) → Above lo ys
Above-right lo [] ys a = a
Above-right lo (x ∷ xs) ys a = Above-mono lo x ys (omega arith) (Above-right x xs ys a.1)

pub Above-left : (lo : ℕ) (xs ys : List ℕ) → Above lo (xs ++ ys) → Above lo xs
Above-left lo [] ys a = tt
Above-left lo (x ∷ xs) ys a = (a.0, Above-left x xs ys a.1)

pub Above-ne : (lo r : ℕ) (xs : List ℕ) → r ≤ lo → Above lo xs → All (λ x. x ≢ r) xs
Above-ne lo r [] h a = tt
Above-ne lo r (x ∷ xs) h a = (omega arith, Above-ne x r xs (omega arith) a.1)

pub below-ne : (n r : ℕ) (xs : List ℕ) → n < r → All (λ x. x ≤ n) xs → All (λ x. x ≢ r) xs
below-ne n r [] h b = tt
below-ne n r (x ∷ xs) h b = (omega arith, below-ne n r xs h b.1)

pub All-le_mono : (m n : ℕ) (xs : List ℕ) → m ≤ n → All (λ x. x ≤ m) xs → All (λ x. x ≤ n) xs
All-le_mono m n [] h b = tt
All-le_mono m n (x ∷ xs) h b = (omega arith, All-le_mono m n xs h b.1)

pub All-split {ℓ κ} :
    {A : Type ℓ} (P : A → Type κ) (xs ys : List A) → All P (xs ++ ys) → All P xs × All P ys
All-split P [] ys h = (tt, h)
All-split P (x ∷ xs) ys h = let r = All-split P xs ys h.1 in ((h.0, r.0), r.1)
