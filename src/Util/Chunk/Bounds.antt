-- ===== src/Util/Chunk/Bounds.antt =====
-- How long the chunks are.
use Prim.Native.Nat.{min}
use pycodebridge.Base.{
  ℕ, zero, suc, ◌+◌, ◌≤◌, ◌<◌, ◌≡◌, refl, ◌⊎◌, ◌||◌, true, inl, inr, List, [], ◌∷◌, ◌++◌, arith,
  length, take, drop, All, All-append, append_assoc, length-append, length-take, ltb, leb, ◌==◌,
  if◌then◌else◌, Bool-cases,
}
use pycodebridge.Base.Text.{Text, is_empty, split_on, join}
use pycodebridge.Util.Chunk.{
  Chunking, newline, flush, put_piece, hard_break, make_room, add_line, add_lines, start,
  chunk_text,
}

-- The newlines at the head of a text.
abbrev pub leading_newlines : Text → ℕ
leading_newlines [] = 0
leading_newlines (c ∷ s) = let rest = suc (leading_newlines s) in if c == newline then rest else 0

leading-append : (s t : Text) → leading_newlines s ≤ leading_newlines (s ++ t)
leading-append [] t = omega arith
leading-append (c ∷ s) t = ground (arith, leading-append s t)

-- Past a text of newlines alone, the newlines of what follows count too.
leading-append_full :
    (s t : Text)
    → length s ≤ leading_newlines s
    → length s + leading_newlines t ≤ leading_newlines (s ++ t)
leading-append_full [] t h = omega arith
leading-append_full (c ∷ s) t h = ground (arith, leading-append_full s t)

pub join-concat :
    (sep : Text) (l : Text) (ls : List Text) (line : Text)
    → join sep ((l ∷ ls) ++ line ∷ []) ≡ join sep (l ∷ ls) ++ sep ++ line
unfolding join
join-concat sep l [] line = refl
join-concat sep l (m ∷ ls) line = simp (join-concat sep m ls line, append_assoc)

-- What one more line adds to the joined buffer, and what `buf_len` counts of it.
joined_step :
    (s line : Text) (n : ℕ)
    → length s ≤ n + leading_newlines s
    → length (s ++ newline ∷ [] ++ line)
      ≤ n
        + (length line + (if ltb 0 n then 1 else 0))
        + leading_newlines (s ++ newline ∷ [] ++ line)
joined_step s line zero h = omega (
  arith,
  leading-append_full s (newline ∷ []) (omega arith),
  leading-append (s ++ newline ∷ []) line,
  length-append s (newline ∷ []),
  length-append (s ++ newline ∷ []) line,
)
joined_step s line (suc n) h = grind (
  arith,
  leading-append s (newline ∷ []),
  leading-append (s ++ newline ∷ []) line,
  length-append s (newline ∷ []),
  length-append (s ++ newline ∷ []) line,
)

module _ (max_len : ℕ) where
  abbrev pub Fits : Text → Type 0
  Fits c = length c ≤ max_len + leading_newlines c

  pub record IsBounded (st : Chunking) : Type 0 where
    pub fits : All Fits st.chunks
    pub joined :
        length (join (newline ∷ []) st.buf)
        ≤ st.buf_len + leading_newlines (join (newline ∷ []) st.buf)
    pub room : st.buf_len ≤ max_len
    pub fresh : st.buf ≡ [] → st.buf_len ≡ 0

  -- `flush` on the parts of a state.
  flushed :
      (chunks buf : List Text) (buf_len : ℕ)
      → IsBounded (record { chunks = chunks; buf = buf; buf_len = buf_len })
      → IsBounded (flush (record { chunks = chunks; buf = buf; buf_len = buf_len }))
  unfolding flush
  flushed chunks [] buf_len v = v
  flushed chunks (l ∷ ls) buf_len v = record {
    fits = All-append Fits chunks _ v.fits (omega arith, tt);
    joined = unfold join in omega arith;
    room = omega arith;
    fresh = λ _. refl;
  }

  flush-IsBounded : (st : Chunking) → IsBounded st → IsBounded (flush st)
  flush-IsBounded st v = flushed st.chunks st.buf st.buf_len v

  put_piece-IsBounded :
      (rest : Text) (st : Chunking) → IsBounded st → IsBounded (put_piece max_len rest st)
  unfolding put_piece
  put_piece-IsBounded rest st v =
      flushed (flush st).chunks (take max_len rest ∷ []) (min max_len (length rest)) (record {
        fits = (flush-IsBounded st v).fits;
        joined = unfold join in omega (arith, length-take max_len rest);
        room = omega arith;
        fresh = λ e. cc;
      })

  hard_break-IsBounded :
      (fuel : ℕ) (rest : Text) (st : Chunking)
      → IsBounded st
      → IsBounded (hard_break fuel max_len rest st)
  unfolding hard_break
  hard_break-IsBounded zero rest st v = v
  hard_break-IsBounded (suc fuel) [] st v = v
  hard_break-IsBounded (suc fuel) (c ∷ rest) st v =
      hard_break-IsBounded fuel (drop max_len (c ∷ rest)) (put_piece max_len (c ∷ rest) st)
        (put_piece-IsBounded (c ∷ rest) st v)

  -- The buffer can take the line.
  abbrev Ready : Text → Chunking → Type 0
  Ready line st = (st.buf ≡ []) ⊎ (st.buf_len + 1 + length line ≤ max_len)

  made_room :
      (line : Text) (chunks buf : List Text) (buf_len : ℕ)
      → let st : Chunking = record { chunks = chunks; buf = buf; buf_len = buf_len } in
        Ready line (make_room max_len line st)
  unfolding make_room flush
  made_room line chunks [] buf_len = inl refl
  made_room line chunks (l ∷ ls) buf_len = ground arith

  make_room-Ready : (line : Text) (st : Chunking) → Ready line (make_room max_len line st)
  make_room-Ready line st = made_room line st.chunks st.buf st.buf_len

  make_room-IsBounded :
      (line : Text) (st : Chunking) → IsBounded st → IsBounded (make_room max_len line st)
  unfolding make_room
  make_room-IsBounded line st v = ground (arith, flush-IsBounded st v)

  appended :
      (line : Text) (chunks buf : List Text) (buf_len : ℕ)
      → let st : Chunking = record { chunks = chunks; buf = buf; buf_len = buf_len } in
        length line ≤ max_len
        → Ready line st
        → IsBounded st
        → IsBounded (record st {
          buf = buf ++ line ∷ [];
          buf_len = buf_len + (length line + (if ltb 0 buf_len then 1 else 0));
        })
  appended line chunks [] buf_len short ready v = record {
    fits = v.fits;
    joined = unfold join in omega arith;
    room = ground (arith, v.fresh refl);
    fresh = λ e. cc;
  }
  appended line chunks (l ∷ ls) buf_len short ready v = record {
    fits = v.fits;
    joined =
        rw (join-concat (newline ∷ []) l ls line)
          (joined_step (join (newline ∷ []) (l ∷ ls)) line buf_len v.joined);
    room = ground arith;
    fresh = λ e. cc;
  }

  add_line-IsBounded :
      (line : Text) (st : Chunking)
      → Ready line st
      → IsBounded st
      → IsBounded (add_line max_len line st)
  unfolding add_line
  add_line-IsBounded line st ready v = elim (Bool-cases (leb (length line) max_len)) [
    | inl t ↦ rw t (appended line st.chunks st.buf st.buf_len (ground arith) ready v)
    | inr t ↦ rw t (hard_break-IsBounded (length line) line st v)
  ]

  add_lines-IsBounded :
      (lines : List Text) (st : Chunking) → IsBounded st → IsBounded (add_lines max_len lines st)
  unfolding add_lines
  add_lines-IsBounded [] st v = v
  add_lines-IsBounded (line ∷ lines) st v = add_lines-IsBounded lines _ (
      add_line-IsBounded line (make_room max_len line st) (make_room-Ready line st)
        (make_room-IsBounded line st v))

  start-IsBounded : IsBounded start
  start-IsBounded = record {
    fits = tt;
    joined = unfold join in omega arith;
    room = omega arith;
    fresh = λ _. refl;
  }

short_Fits :
    (text : Text) (max_len : ℕ)
    → (is_empty text || leb (length text) max_len) ≡ true
    → Fits max_len text
short_Fits [] max_len h = omega arith
short_Fits (c ∷ text) max_len h = ground arith

-- Under a positive limit every chunk has at most `max_len` characters beside the newlines at its
-- head.
pub chunk_text-Fits :
    (text : Text) (max_len : ℕ) → 0 < max_len → All (Fits max_len) (chunk_text text max_len)
unfolding chunk_text
chunk_text-Fits text max_len pos = elim (Bool-cases (leb max_len 0)) [
  | inl t ↦ absurd (ground arith)
  | inr t ↦ elim (Bool-cases (is_empty text || leb (length text) max_len)) [
    | inl u ↦ rw (t, u) (short_Fits text max_len u, tt)
    | inr u ↦
        rw (t, u)
          (flush-IsBounded max_len _ (
            add_lines-IsBounded max_len (split_on newline text) start
              (start-IsBounded max_len))).fits
  ]
]
