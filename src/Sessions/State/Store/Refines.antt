-- ===== src/Sessions/State/Store/Refines.antt =====
-- The cached store refines one that is its content.
use pycodebridge.Base.{ℕ, ◌<◌, ◌≡◌, refl, ap, arith, List, [], ◌∷◌, Option, none, some, map}
use pycodebridge.Base.Integers.{ℤ}
use pycodebridge.Base.Options.{some_injective}
use pycodebridge.Base.Text.{Text}
use pycodebridge.Base.Json.{Json}
use pycodebridge.Sessions.State.{FileState}
use pycodebridge.Sessions.State.Store.Coherent.{
  dump, Stored, Coherent, write-Coherent, load-Loaded, replaced-Coherent, removed-Coherent,
  new-Coherent,
}
use pycodebridge.Sessions.State.Store.{
  Stamp, File, Store, new_store, empty_file, versioned, load, write, update_found, update,
}

-- What one process does with the store, and what others do with the file.
pub data Op : Type 0 where
  loads : Op
  updates : (FileState → FileState) → Stamp → Op
  saves replaced : FileState → Stamp → Op
  removed : Op

-- The store that is its content: what each operation returns, if it returns something.
unfoldable pub replay : List Op → FileState → List FileState
replay [] c = []
replay (loads ∷ ops) c = c ∷ replay ops c
replay (updates f stamp ∷ ops) c = versioned (f c) ∷ replay ops (versioned (f c))
replay (saves fs stamp ∷ ops) c = replay ops (versioned fs)
replay (replaced fs stamp ∷ ops) c = replay ops fs
replay (removed ∷ ops) c = replay ops empty_file

module _ (lower : Text → Text) (str_of : Json → Text) (int_of_text : Text → Option ℤ) where
  -- The operations on the store and the file.
  unfoldable pub run : List Op → Store → File → List (Option FileState)
  run [] st file = []
  run (loads ∷ ops) st file =
      let (fs, st') = load lower str_of int_of_text st file in fs ∷ run ops st' file
  run (updates f stamp ∷ ops) st file =
      let (fs, (st', file')) = update lower str_of int_of_text f stamp st file in
      fs ∷ run ops st' file'
  run (saves fs stamp ∷ ops) st file =
      let (st', file') = write lower str_of int_of_text fs stamp in run ops st' file'
  run (replaced fs stamp ∷ ops) st file =
      run ops st (some (stamp, dump lower str_of int_of_text fs))
  run (removed ∷ ops) st file = run ops st none

  -- Mutators keep a state that a file can hold, what is written can be held by a file, and every
  -- write has a later time than those before; `n` is the last one.
  abbrev pub AreValid : ℕ → List Op → Type 0
  AreValid n [] = Unit
  AreValid n (loads ∷ ops) = AreValid n ops
  AreValid n (updates f stamp ∷ ops) =
      (n < stamp.mtime_ns)
      × ((fs : FileState)
          → Stored lower str_of int_of_text fs
          → Stored lower str_of int_of_text (f fs))
      × AreValid stamp.mtime_ns ops
  AreValid n (saves fs stamp ∷ ops) =
      (n < stamp.mtime_ns) × Stored lower str_of int_of_text fs × AreValid stamp.mtime_ns ops
  AreValid n (replaced fs stamp ∷ ops) =
      (n < stamp.mtime_ns) × Stored lower str_of int_of_text fs × AreValid stamp.mtime_ns ops
  AreValid n (removed ∷ ops) = AreValid n ops

  update_found-eq :
      (f : FileState → FileState) (s : Stamp) (file : File) (c : FileState)
      (r : Option FileState × Store)
      → r.0 ≡ some c
      → update_found lower str_of int_of_text f s file r
        ≡ (some (versioned (f c)), write lower str_of int_of_text (f c) s)
  unfolding update_found
  update_found-eq f s file c (none, st) e = cc
  update_found-eq f s file c (some fs, st) e = rw (some_injective fs c e) refl

  coherent_run :
      (n : ℕ) (ops : List Op) (st : Store) (file : File) (c : FileState)
      → AreValid n ops
      → Coherent lower str_of int_of_text n st file c
      → run ops st file ≡ map some (replay ops c)
  unfolding run replay update
  coherent_run n [] st file c v h = refl
  coherent_run n (loads ∷ ops) st file c v h =
      let l = load-Loaded lower str_of int_of_text n st file c h in
      rw (coherent_run n ops (load lower str_of int_of_text st file).1 file c v l.after)
        (ap (λ r. r ∷ map some (replay ops c)) l.result)
  coherent_run n (updates f s ∷ ops) st file c v h =
      let l = load-Loaded lower str_of int_of_text n st file c h in
      let w = write lower str_of int_of_text (f c) s in
      rw (update_found-eq f s file c (load lower str_of int_of_text st file) l.result) (
        ap (λ r. some (versioned (f c)) ∷ r)
          (coherent_run s.mtime_ns ops w.0 w.1 (versioned (f c)) v.2 (
            write-Coherent lower str_of int_of_text s.mtime_ns (f c) s (omega arith)
              (v.1 c h.content))))
  coherent_run n (saves fs s ∷ ops) st file c v h =
      let w = write lower str_of int_of_text fs s in
      coherent_run s.mtime_ns ops w.0 w.1 (versioned fs) v.2
        (write-Coherent lower str_of int_of_text s.mtime_ns fs s (omega arith) v.1)
  coherent_run n (replaced fs s ∷ ops) st file c v h =
      coherent_run s.mtime_ns ops st (some (s, dump lower str_of int_of_text fs)) fs v.2
        (replaced-Coherent lower str_of int_of_text n st file c fs s v.0 v.1 h)
  coherent_run n (removed ∷ ops) st file c v h =
      coherent_run n ops st none empty_file v
        (removed-Coherent lower str_of int_of_text n st file c h)

  -- From a new store without a file on, every load and update returns, and what it returns is what a
  -- store returns that is nothing but its content, whatever this process and others do in between
  -- and whether the cache is used or the file is read. Each write has a later time than those before,
  -- mutators keep a state that a file can hold, and so does what is saved.
  pub run_refines :
      (ops : List Op) → AreValid 0 ops → run ops new_store none ≡ map some (replay ops empty_file)
  run_refines ops v =
      coherent_run 0 ops new_store none empty_file v (new-Coherent lower str_of int_of_text)
