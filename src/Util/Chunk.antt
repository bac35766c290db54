-- ===== src/Util/Chunk.antt =====
-- codebridge/util/chunk.py: `chunk_text` splits a text into pieces for a message limit. A limit
-- that is not positive is 0 here.
pub mod Bounds
pub mod Content
pub mod Loop
pub mod Examples
use pycodebridge.Base.{
  ℕ, zero, suc, ◌+◌, Bool, true, false, ◌&&◌, ◌||◌, List, [], ◌∷◌, ◌++◌, min, length, take, drop,
  ltb, leb, if◌then◌else◌,
}
use pycodebridge.Base.Text.{Text, is_empty, split_on, join}

abbrev pub newline : ℕ
newline = 10

-- The variables `chunks`, `buf` and `buf_len` of the loop.
pub record Chunking : Type 0 where
  pub chunks : List Text
  pub buf : List Text
  pub buf_len : ℕ

abbrev pub some_lines : List Text → Bool
some_lines [] = false
some_lines (l ∷ ls) = true

pub flush : Chunking → Chunking
flush st =
    if some_lines st.buf
    then record { chunks = st.chunks ++ join (newline ∷ []) st.buf ∷ []; buf = []; buf_len = 0 }
    else st

-- One round of the inner loop: `rest` is `line[start:]`, and `max_len` characters of it go out.
pub put_piece : ℕ → Text → Chunking → Chunking
unfolding flush
put_piece max_len rest st =
    flush (record (flush st) { buf = take max_len rest ∷ []; buf_len = min max_len (length rest) })

-- The inner loop over a line that is longer than the limit; each round takes a character at least.
pub hard_break : ℕ → ℕ → Text → Chunking → Chunking
hard_break zero max_len rest st = st
hard_break (suc fuel) max_len rest st =
    let more = hard_break fuel max_len (drop max_len rest) (put_piece max_len rest st) in
    if is_empty rest then st else more

-- The flush at the head of the loop's body.
pub make_room : ℕ → Text → Chunking → Chunking
make_room max_len line st =
    let extra = if some_lines st.buf then 1 else 0 in
    if some_lines st.buf && ltb max_len (st.buf_len + extra + length line) then flush st else st

pub add_line : ℕ → Text → Chunking → Chunking
add_line max_len line st =
    if leb (length line) max_len
    then record st {
      buf = st.buf ++ line ∷ [];
      buf_len = st.buf_len + (length line + (if ltb 0 st.buf_len then 1 else 0));
    }
    else hard_break (length line) max_len line st

pub add_lines : ℕ → List Text → Chunking → Chunking
add_lines max_len [] st = st
add_lines max_len (line ∷ lines) st =
    add_lines max_len lines (add_line max_len line (make_room max_len line st))

abbrev pub start : Chunking
start = record { chunks = []; buf = []; buf_len = 0 }

pub chunk_text : Text → ℕ → List Text
chunk_text text max_len =
    if leb max_len 0
    then text ∷ []
    else if is_empty text || leb (length text) max_len
    then text ∷ []
    else (flush (add_lines max_len (split_on newline text) start)).chunks
