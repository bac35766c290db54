-- ===== src/Util/Chunk/Content.antt =====
-- What the chunks hold, and the texts of newlines, which no limit splits.
use mathlib.Core.List.{append-nil}
use pycodebridge.Base.{
  ℕ, min, zero, suc, ◌≤◌, ◌<◌, ◌≡◌, refl, ap, sym, ◌∙◌, not, ◌||◌, inl, inr, List, [], ◌∷◌, ◌++◌,
  arith, append_assoc, length, take, drop, keep, keep-append, take-append-drop, length-drop, leb,
  ◌==◌, Bool-cases, replicate,
}
use pycodebridge.Base.Text.{Text, is_empty, split_on, join, join-split_on}
use pycodebridge.Util.Chunk.{
  Chunking, newline, flush, put_piece, hard_break, make_room, add_line, add_lines, start,
  chunk_text,
}

-- A text without its newlines.
abbrev pub visible : Text → Text
visible = keep (λ c. not (c == newline))

-- Several texts in a row, without their newlines.
abbrev pub visible_all : List Text → Text
visible_all [] = []
visible_all (l ∷ ls) = visible l ++ visible_all ls

visible_all-append : (ls ms : List Text) → visible_all (ls ++ ms) ≡ visible_all ls ++ visible_all ms
visible_all-append [] ms = refl
visible_all-append (l ∷ ls) ms = simp (visible_all-append ls ms, append_assoc)

visible-join : (ls : List Text) → visible (join (newline ∷ []) ls) ≡ visible_all ls
unfolding join
visible-join [] = refl
visible-join (l ∷ []) = simp append-nil
visible-join (l ∷ m ∷ ls) = simp (keep-append, visible-join (m ∷ ls), append-nil)

content : Chunking → Text
content st = visible_all st.chunks ++ visible_all st.buf

flushed :
    (chunks buf : List Text) (n : ℕ)
    → let st : Chunking = record { chunks = chunks; buf = buf; buf_len = n } in
      content (flush st) ≡ content st
unfolding content flush
flushed chunks [] n = refl
flushed chunks (l ∷ ls) n = simp (visible_all-append, visible-join, append-nil)

content-flush : (st : Chunking) → content (flush st) ≡ content st
content-flush st = flushed st.chunks st.buf st.buf_len

-- A flush leaves nothing in the buffer.
emptied :
    (chunks buf : List Text) (n : ℕ)
    → let st : Chunking = record { chunks = chunks; buf = buf; buf_len = n } in
      content (flush st) ≡ visible_all (flush st).chunks
unfolding content flush
emptied chunks [] n = append-nil _
emptied chunks (l ∷ ls) n = append-nil _

chunks-flush : (st : Chunking) → visible_all (flush st).chunks ≡ content st
chunks-flush st = sym (emptied st.chunks st.buf st.buf_len) ∙ content-flush st

content-put_piece :
    (max_len : ℕ) (rest : Text) (st : Chunking)
    → content (put_piece max_len rest st) ≡ content st ++ visible (take max_len rest)
unfolding put_piece content
content-put_piece max_len rest st =
    content-flush
      (record (flush st) { buf = take max_len rest ∷ []; buf_len = min max_len (length rest) })
    ∙ one_piece (visible (take max_len rest))
  where
    one_piece : (v : Text) → visible_all (flush st).chunks ++ (v ++ []) ≡ content st ++ v
    one_piece v = rw (append-nil v, chunks-flush st)

-- With as much fuel as there are characters, nothing of the line is left behind.
content-hard_break :
    (max_len fuel : ℕ) (rest : Text) (st : Chunking)
    → 0 < max_len
    → length rest ≤ fuel
    → content (hard_break fuel max_len rest st) ≡ content st ++ visible rest
unfolding hard_break
content-hard_break max_len zero [] st pos h = sym (append-nil _)
content-hard_break max_len zero (c ∷ rest) st pos h = absurd (omega arith)
content-hard_break max_len (suc fuel) [] st pos h = sym (append-nil _)
content-hard_break max_len (suc fuel) (c ∷ rest) st pos h =
    rw
      (content-hard_break max_len fuel (drop max_len (c ∷ rest)) (put_piece max_len (c ∷ rest) st)
        pos (omega (arith, length-drop max_len (c ∷ rest))))
      (rw (content-put_piece max_len (c ∷ rest) st) (
        regroup (take max_len (c ∷ rest)) (drop max_len (c ∷ rest))
          (take-append-drop max_len (c ∷ rest))))
  where
    regroup :
        (s t : Text)
        → s ++ t ≡ c ∷ rest
        → content st ++ visible s ++ visible t ≡ content st ++ visible (c ∷ rest)
    regroup s t e =
        append_assoc (content st) (visible s) (visible t)
        ∙ ap (λ u. content st ++ u) (sym (keep-append _ s t) ∙ ap visible e)

content-make_room :
    (max_len : ℕ) (line : Text) (st : Chunking) → content (make_room max_len line st) ≡ content st
unfolding make_room
content-make_room max_len line st = ground (arith, content-flush st)

content-add_line :
    (max_len : ℕ) (line : Text) (st : Chunking)
    → 0 < max_len
    → content (add_line max_len line st) ≡ content st ++ visible line
unfolding add_line
content-add_line max_len line st pos = elim (Bool-cases (leb (length line) max_len)) [
  | inl t ↦ rw t (unfold content in simp (visible_all-append, append-nil, append_assoc))
  | inr t ↦ rw t (content-hard_break max_len (length line) line st pos (omega arith))
]

content-add_lines :
    (max_len : ℕ) (lines : List Text) (st : Chunking)
    → 0 < max_len
    → content (add_lines max_len lines st) ≡ content st ++ visible_all lines
unfolding add_lines
content-add_lines max_len [] st pos = sym (append-nil _)
content-add_lines max_len (line ∷ lines) st pos = simp (
  content-add_lines max_len lines (add_line max_len line (make_room max_len line st)) pos,
  content-add_line max_len line (make_room max_len line st) pos,
  content-make_room max_len line st,
  append_assoc,
)

visible-split_on : (s : Text) → visible_all (split_on newline s) ≡ visible s
visible-split_on s = sym (visible-join (split_on newline s)) ∙ ap visible (join-split_on newline s)

-- The chunks hold the characters of the text in their order, but for newlines.
pub visible-chunk_text :
    (text : Text) (max_len : ℕ) → visible_all (chunk_text text max_len) ≡ visible text
unfolding chunk_text content
visible-chunk_text text max_len = elim (Bool-cases (leb max_len 0)) [
  | inl t ↦ rw t (append-nil _)
  | inr t ↦ elim (Bool-cases (is_empty text || leb (length text) max_len)) [
    | inl u ↦ rw (t, u) (append-nil _)
    | inr u ↦
        rw (t, u)
          (chunks-flush (add_lines max_len (split_on newline text) start)
            ∙ content-add_lines max_len (split_on newline text) start (ground arith)
            ∙ visible-split_on text)
  ]
]

split_on-newlines : (n : ℕ) → split_on newline (replicate n newline) ≡ replicate (suc n) []
unfolding split_on
split_on-newlines zero = refl
split_on-newlines (suc n) = rw (split_on-newlines n)

abbrev blank : List Text → Chunking
blank buf = record { chunks = []; buf = buf; buf_len = 0 }

-- An empty line adds nothing to `buf_len`, so the buffer is never flushed.
add_line-empty :
    (max_len : ℕ) (buf : List Text)
    → 0 < max_len
    → add_line max_len [] (make_room max_len [] (blank buf)) ≡ blank (buf ++ [] ∷ [])
unfolding add_line make_room flush
add_line-empty max_len [] pos = ground arith
add_line-empty max_len (l ∷ ls) pos = ground arith

add_lines-empty :
    (max_len n : ℕ) (buf : List Text)
    → 0 < max_len
    → add_lines max_len (replicate n []) (blank buf) ≡ blank (buf ++ replicate n [])
unfolding add_lines
add_lines-empty max_len zero buf pos = rw append-nil
add_lines-empty max_len (suc n) buf pos =
    ap (add_lines max_len (replicate n [])) (add_line-empty max_len buf pos)
    ∙ add_lines-empty max_len n (buf ++ [] ∷ []) pos
    ∙ ap blank (append_assoc buf ([] ∷ []) (replicate n []))

flush-blank :
    (n : ℕ)
    → (flush (blank (replicate (suc n) []))).chunks
      ≡ join (newline ∷ []) (replicate (suc n) []) ∷ []
unfolding flush
flush-blank n = refl

-- A text of newlines alone comes back as one chunk, however far it passes the limit.
pub chunk_text-newlines :
    (n max_len : ℕ) → chunk_text (replicate n newline) max_len ≡ replicate n newline ∷ []
unfolding chunk_text
chunk_text-newlines n max_len = elim (Bool-cases (leb max_len 0)) [
  | inl t ↦ rw t
  | inr t ↦
      elim (Bool-cases
        (is_empty (replicate n newline) || leb (length (replicate n newline)) max_len)) [
          | inl u ↦ rw (t, u)
          | inr u ↦
              rw (t, u)
                (rw (split_on-newlines n) (
                  rw (add_lines-empty max_len (suc n) [] (ground arith)) (
                    flush-blank n
                    ∙ ap (λ s. s ∷ [])
                        (ap (join (newline ∷ [])) (sym (split_on-newlines n))
                          ∙ join-split_on newline (replicate n newline)))))
        ]
]
