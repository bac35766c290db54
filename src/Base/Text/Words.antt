-- ===== src/Base/Text/Words.antt =====
-- Words and the characters that are not spaces.
use mathlib.Core.Path.{◌≡◌, refl, sym, ap, ◌∙◌}
use mathlib.Core.Bool.{false, not, ◌&&◌}
use mathlib.Core.Logic.{inl, inr}
use mathlib.Core.List.{List, [], ◌∷◌, ◌++◌, append_assoc}
use Prim.Native.Nat.{ℕ}
use native.Mathlib.Omega.{arith}
use pycodebridge.Base.Tests.{if◌then◌else◌, Bool-cases}
use pycodebridge.Base.Lists.{keep, keep-append, length, drop}
use pycodebridge.Base.Text.{
  Text, is_empty, is_space, lstrip, rstrip, strip_by, strip, emit, split_loop, split, drop-append,
}

-- The characters that are not spaces.
abbrev pub dense : Text → Text
dense s = keep (λ c. not (is_space c)) s

dense-lstrip : (s : Text) → dense (lstrip is_space s) ≡ dense s
unfolding lstrip
dense-lstrip [] = refl
dense-lstrip (c ∷ s) = ground (arith, dense-lstrip s)

rstrip_cons :
    (c : ℕ) (r s : Text)
    → dense r ≡ dense s
    → dense (if is_space c && is_empty r then [] else c ∷ r) ≡ dense (c ∷ s)
rstrip_cons c [] s e = ground (arith, e)
rstrip_cons c (d ∷ r) s e = ground (arith, e)

dense-rstrip : (s : Text) → dense (rstrip is_space s) ≡ dense s
unfolding rstrip
dense-rstrip [] = refl
dense-rstrip (c ∷ s) = rstrip_cons c (rstrip is_space s) s (dense-rstrip s)

pub dense-strip : (s : Text) → dense (strip s) ≡ dense s
unfolding strip strip_by
dense-strip s = dense-rstrip (lstrip is_space s) ∙ dense-lstrip s

-- The characters of all words.
abbrev pub concat : List Text → Text
concat [] = []
concat (w ∷ ws) = w ++ concat ws

dense-emit :
    (cur : Text) (ws : List Text) → dense (concat (emit cur ws)) ≡ dense cur ++ dense (concat ws)
dense-emit [] ws = refl
dense-emit (c ∷ s) ws = keep-append (λ c. not (is_space c)) (c ∷ s) (concat ws)

dense-split_loop : (cur s : Text) → dense (concat (split_loop cur s)) ≡ dense cur ++ dense s
unfolding split_loop
dense-split_loop cur [] = dense-emit cur []
dense-split_loop cur (c ∷ s) = elim (Bool-cases (is_space c)) [
  | inl t ↦
      rw t (dense-emit cur (split_loop [] s) ∙ ap (λ x. dense cur ++ x) (dense-split_loop [] s))
  | inr t ↦ rw t (dense-split_loop (cur ++ c ∷ []) s ∙ rw (keep-append, append_assoc) (rw t refl))
]

pub dense-split : (s : Text) → dense (concat (split s)) ≡ dense s
unfolding split
dense-split s = dense-split_loop [] s

abbrev pub head_of : List Text → Text
head_of [] = []
head_of (w ∷ ws) = w

after : Text → Text
after [] = []
after (c ∷ s) = let rest = after s in if is_space c then c ∷ s else rest

split_loop-head :
    (cur s : Text) → is_empty cur ≡ false → head_of (split_loop cur s) ++ after s ≡ cur ++ s
unfolding split_loop after
split_loop-head [] s e = cc
split_loop-head (d ∷ cur) [] e = refl
split_loop-head (d ∷ cur) (c ∷ s) e = elim (Bool-cases (is_space c)) [
  | inl t ↦ rw t refl
  | inr t ↦ rw t (split_loop-head (d ∷ cur ++ c ∷ []) s refl ∙ append_assoc (d ∷ cur) (c ∷ []) s)
]

-- A text that does not begin with a space begins with its first word.
pub split-head :
    (c : ℕ) (s : Text)
    → is_space c ≡ false
    → head_of (split (c ∷ s)) ++ drop (length (head_of (split (c ∷ s)))) (c ∷ s) ≡ c ∷ s
unfolding split split_loop
split-head c s e = rw e (
    let h = split_loop-head (c ∷ []) s refl in
    ap (λ x. head_of (split_loop (c ∷ []) s) ++ drop (length (head_of (split_loop (c ∷ []) s))) x)
      (sym h)
    ∙ ap (λ x. head_of (split_loop (c ∷ []) s) ++ x)
        (drop-append (head_of (split_loop (c ∷ []) s)) (after s))
    ∙ h)

lstrip_head : (s : Text) (c : ℕ) (t : Text) → lstrip is_space s ≡ c ∷ t → is_space c ≡ false
unfolding lstrip
lstrip_head [] c t e = cc
lstrip_head (d ∷ s) c t e = ground (arith, e, lstrip_head s c t)

rstrip_head :
    (l : Text) (c : ℕ) (t : Text)
    → ((d : ℕ) (r : Text) → l ≡ d ∷ r → is_space d ≡ false)
    → rstrip is_space l ≡ c ∷ t
    → is_space c ≡ false
unfolding rstrip
rstrip_head [] c t h e = cc
rstrip_head (d ∷ l) c t h e = ground (arith, h d l refl, e)

-- A stripped text does not begin with a space.
pub strip_head : (s : Text) (c : ℕ) (t : Text) → strip s ≡ c ∷ t → is_space c ≡ false
unfolding strip strip_by
strip_head s c t e = rstrip_head (lstrip is_space s) c t (lstrip_head s) e
