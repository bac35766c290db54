-- ===== src/Base/Decimal.antt =====
-- The decimal text of a number, as an f-string prints it.
use Prim.Native.Nat.{ℕ, zero, suc, ◌+◌, ◌-◌, ◌*◌, ◌/◌, ◌%◌, ◌<◌}
use mathlib.Core.Path.{◌≡◌, sym, ap, ◌∙◌}
use mathlib.Core.Logic.{inl, inr}
use mathlib.Core.List.{[], ◌∷◌}
use native.Mathlib.Omega.{arith}
use pycodebridge.Base.Tests.{ltb, if◌then◌else◌, Bool-cases}
use pycodebridge.Base.Text.{Text}

show_loop : ℕ → ℕ → Text → Text
show_loop zero n out = out
show_loop (suc f) n out =
    let more = show_loop f (n / 10) ((b'0' + n % 10) ∷ out) in
    if ltb n 10 then (b'0' + n) ∷ out else more

-- str(n); `n + 1` rounds are more than `n` has digits.
unfoldable pub show : ℕ → Text
unfolding show_loop
show n = show_loop (n + 1) n []

value_from : ℕ → Text → ℕ
value_from acc [] = acc
value_from acc (c ∷ s) = value_from (acc * 10 + (c - b'0')) s

pub value : Text → ℕ
value = value_from 0

value-show_loop :
    (f n : ℕ) (out : Text) → n < f → value_from 0 (show_loop f n out) ≡ value_from n out
unfolding show_loop value_from
value-show_loop zero n out h = elim h [ ]
value-show_loop (suc f) n out h = elim (Bool-cases (ltb n 10)) [
  | inl t ↦ rw t (ap (λ a. value_from a out) (omega arith))
  | inr t ↦ rw t (
      value-show_loop f (n / 10) ((b'0' + n % 10) ∷ out) (ground arith)
      ∙ ap (λ a. value_from a out) (omega arith))
]

-- A printed number reads back as itself.
pub value-show : (n : ℕ) → value (show n) ≡ n
unfolding value show value_from
value-show n = value-show_loop (n + 1) n [] (omega arith)

-- So two numbers with one text are equal.
pub show_injective : (m n : ℕ) → show m ≡ show n → m ≡ n
show_injective m n e = sym (value-show m) ∙ ap value e ∙ value-show n
