-- ===== src/Base/Text.antt =====
-- A Python `str` as the list of its code points, with the methods of `str` that the program calls.
pub mod Words
pub mod Lines
use Prim.Native.Char.{code}
use Prim.Native.Nat.{ℕ, ◌+◌}
use Prim.Native.String.{String}
use mathlib.Core.Path.{◌≡◌, refl}
use mathlib.Core.Logic.{◌↔◌, ◌≢◌, inl, inr}
use mathlib.Core.Bool.{Bool, true, false, ◌&&◌, ◌||◌}
use mathlib.Core.List.{List, [], ◌∷◌, ◌++◌}
use native.Mathlib.Omega.{arith}
use pycodebridge.Base.Tests.{leb, ◌==◌, if◌then◌else◌, Bool-cases}
use pycodebridge.Base.Lists.{length, drop}

abbrev pub Text : Type 0
Text = List ℕ

abbrev pub is_empty : Text → Bool
is_empty [] = true
is_empty (c ∷ s) = false

-- The code points of a literal.
abbrev pub str : String → Text
str String.[] = []
str (String.◌∷◌ c s) = code c ∷ str s

-- a == b
unfoldable pub text_eq : Text → Text → Bool
text_eq [] [] = true
text_eq [] (d ∷ t) = false
text_eq (c ∷ s) [] = false
text_eq (c ∷ s) (d ∷ t) = c == d && text_eq s t

pub text_eq→eq : (s t : Text) → text_eq s t ≡ true → s ≡ t
unfolding text_eq
text_eq→eq [] [] h = refl
text_eq→eq [] (d ∷ t) h = ground arith
text_eq→eq (c ∷ s) [] h = ground arith
text_eq→eq (c ∷ s) (d ∷ t) h = ground (arith, text_eq→eq s t)

pub text_eq_refl : (s : Text) → text_eq s s ≡ true
unfolding text_eq
text_eq_refl [] = refl
text_eq_refl (c ∷ s) = ground (arith, text_eq_refl s)

pub text_eq_iff : (s t : Text) → (text_eq s t ≡ true) ↔ (s ≡ t)
text_eq_iff s t = (text_eq→eq s t, λ e. rw e (text_eq_refl t))

-- The code points for which `str.isspace` holds; `strip` and `split` go by them.
unfoldable pub is_space : ℕ → Bool
is_space c =
    (leb 9 c && leb c 13)
    || (leb 28 c && leb c 32)
    || c == 133
    || c == 160
    || c == 5760
    || (leb 8192 c && leb c 8202)
    || c == 8232
    || c == 8233
    || c == 8239
    || c == 8287
    || c == 12288

-- s.lstrip(chars), for the test that holds of the characters to drop
unfoldable pub lstrip : (ℕ → Bool) → Text → Text
lstrip p [] = []
lstrip p (c ∷ s) = let rest = lstrip p s in if p c then rest else c ∷ s

unfoldable pub rstrip : (ℕ → Bool) → Text → Text
rstrip p [] = []
rstrip p (c ∷ s) = let rest = rstrip p s in if p c && is_empty rest then [] else c ∷ rest

unfoldable pub strip_by : (ℕ → Bool) → Text → Text
unfolding lstrip rstrip
strip_by p s = rstrip p (lstrip p s)

-- s.strip()
unfoldable pub strip : Text → Text
unfolding strip_by is_space
strip = strip_by is_space

abbrev emit : Text → List Text → List Text
emit [] rest = rest
emit (c ∷ s) rest = (c ∷ s) ∷ rest

-- `cur` is the word read so far.
split_loop : Text → Text → List Text
split_loop cur [] = emit cur []
split_loop cur (c ∷ s) =
    let closed = emit cur (split_loop [] s) in
    let going = split_loop (cur ++ c ∷ []) s in if is_space c then closed else going

-- s.split()
unfoldable pub split : Text → List Text
unfolding split_loop is_space
split = split_loop []

abbrev cons_head : ℕ → List Text → List Text
cons_head c [] = (c ∷ []) ∷ []
cons_head c (l ∷ ls) = (c ∷ l) ∷ ls

-- s.split(sep) for a separator of one character
unfoldable pub split_on : ℕ → Text → List Text
split_on sep [] = [] ∷ []
split_on sep (c ∷ s) = let rest = split_on sep s in if c == sep then [] ∷ rest else cons_head c rest

-- sep.join(parts)
unfoldable pub join : Text → List Text → Text
join sep [] = []
join sep (l ∷ []) = l
join sep (l ∷ m ∷ ls) = l ++ sep ++ join sep (m ∷ ls)

-- s.startswith(p)
unfoldable pub starts_with : Text → Text → Bool
starts_with [] s = true
starts_with (c ∷ p) [] = false
starts_with (c ∷ p) (d ∷ s) = c == d && starts_with p s

-- `str.lower` on one ASCII code point
unfoldable pub lower_char : ℕ → ℕ
lower_char c = if leb b'A' c && leb c b'Z' then c + 32 else c

-- The class [A-Za-z0-9._-].
unfoldable pub is_name_char : ℕ → Bool
is_name_char c =
    (leb b'A' c && leb c b'Z')
    || (leb b'a' c && leb c b'z')
    || (leb b'0' c && leb c b'9')
    || c == b'.'
    || c == b'_'
    || c == b'-'

pub starts_with-append : (p s : Text) → starts_with p (p ++ s) ≡ true
unfolding starts_with
starts_with-append [] s = refl
starts_with-append (c ∷ p) s = ground (arith, starts_with-append p s)

-- What starts with `p` is `p` and the rest.
pub starts_with-drop : (p s : Text) → starts_with p s ≡ true → p ++ drop (length p) s ≡ s
unfolding starts_with
starts_with-drop [] s h = refl
starts_with-drop (c ∷ p) [] h = ground arith
starts_with-drop (c ∷ p) (d ∷ s) h = ground (arith, starts_with-drop p s)

pub drop-append : (p s : Text) → drop (length p) (p ++ s) ≡ s
drop-append [] s = refl
drop-append (c ∷ p) s = drop-append p s

join-cons_head :
    (sep c : ℕ) (ls : List Text) → join (sep ∷ []) (cons_head c ls) ≡ c ∷ join (sep ∷ []) ls
unfolding join
join-cons_head sep c [] = refl
join-cons_head sep c (l ∷ []) = refl
join-cons_head sep c (l ∷ m ∷ ls) = refl

join_cons_empty :
    (sep : ℕ) (ls : List Text) → ls ≢ [] → join (sep ∷ []) ([] ∷ ls) ≡ sep ∷ join (sep ∷ []) ls
unfolding join
join_cons_empty sep [] h = absurd (h refl)
join_cons_empty sep (l ∷ ls) h = refl

cons_head_ne : (c : ℕ) (ls : List Text) → cons_head c ls ≢ []
cons_head_ne c [] e = cc
cons_head_ne c (l ∷ ls) e = cc

split_on_ne : (sep : ℕ) (s : Text) → split_on sep s ≢ []
unfolding split_on
split_on_ne sep [] e = cc
split_on_ne sep (c ∷ s) e = ground (arith, cons_head_ne c (split_on sep s))

-- Splitting at a separator and joining by it gives the text back.
pub join-split_on : (sep : ℕ) (s : Text) → join (sep ∷ []) (split_on sep s) ≡ s
unfolding split_on
join-split_on sep [] = unfold join in refl
join-split_on sep (c ∷ s) = elim (Bool-cases (c == sep)) [
  | inl t ↦ rw t (
      rw (join_cons_empty sep (split_on sep s) (split_on_ne sep s), join-split_on sep s)
        (ground arith))
  | inr t ↦ rw t (rw (join-cons_head sep c (split_on sep s), join-split_on sep s) refl)
]
