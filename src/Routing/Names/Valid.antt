-- ===== src/Routing/Names/Valid.antt =====
-- The session names that the service works with.
use pycodebridge.Base.{
  ℕ, leb, ◌≤◌, ◌≡◌, refl, ap, arith, inl, inr, true, false, ◌&&◌, [], ◌∷◌, none, some, length, all,
  Bool-cases, if_intro, leb→le,
}
use pycodebridge.Base.Text.{Text, is_empty, is_space, is_name_char, strip, strip_by, lstrip, rstrip}
use pycodebridge.Util.Path.{chomp, is_name}
use pycodebridge.Routing.Names.{
  default_session, normalize_session, normalize_session_default, or_default,
}

-- 1 to 64 characters, each a letter, a digit, or one of `.`, `_` and `-`.
pub record IsSessionName (s : Text) : Type 0 where
  pub chars : all is_name_char s ≡ true
  pub some_chars : is_empty s ≡ false
  pub bounded : length s ≤ 64

chomp-rstrip : (s : Text) → chomp (rstrip is_space s) ≡ rstrip is_space s
unfolding rstrip chomp is_space
chomp-rstrip [] = refl
chomp-rstrip (c ∷ s) = elim (Bool-cases (is_space c && is_empty (rstrip is_space s))) [
  | inl t ↦ rw t refl
  | inr t ↦ rw t (chomp_kept c (rstrip is_space s) t (chomp-rstrip s))
]
  where
    chomp_kept :
        (c : ℕ) (r : Text)
        → (is_space c && is_empty r) ≡ false
        → chomp r ≡ r
        → chomp (c ∷ r) ≡ c ∷ r
    chomp_kept c [] t e = ground (arith, t)
    chomp_kept c (d ∷ r) t e = ap (◌∷◌ c) e

chomp-strip : (s : Text) → chomp (strip s) ≡ strip s
unfolding strip strip_by
chomp-strip s = chomp-rstrip (lstrip is_space s)

name_not_space : (c : ℕ) → is_name_char c ≡ true → is_space c ≡ false
unfolding is_name_char is_space
name_not_space c h = ground (arith, h)

default-IsSessionName : IsSessionName default_session
unfolding is_name_char
default-IsSessionName = record { chars = refl; some_chars = refl; bounded = omega arith }

stripped-IsSessionName :
    (raw : Text)
    → chomp raw ≡ raw
    → is_empty raw ≡ false
    → IsSessionName (or_default (normalize_session raw))
unfolding normalize_session is_name
stripped-IsSessionName raw c e =
    rw (c, e)
      (if_intro (λ o. IsSessionName (or_default o)) (all is_name_char raw && leb (length raw) 64)
        (some raw) none
        (λ t. record {
          chars = ground (arith, t);
          some_chars = e;
          bounded = leb→le (length raw) 64 (ground (arith, t));
        })
        (λ _. default-IsSessionName))

-- Whatever a session is called, the service stores it under a name of 1 to 64 letters, digits, `.`,
-- `_` and `-`.
pub normalize_session_default-IsSessionName :
    (session : Text) → IsSessionName (normalize_session_default session)
unfolding normalize_session_default
normalize_session_default-IsSessionName session =
    if_intro IsSessionName (is_empty (strip session)) default_session
      (or_default (normalize_session (strip session))) (λ _. default-IsSessionName)
      (λ e. stripped-IsSessionName (strip session) (chomp-strip session) e)
