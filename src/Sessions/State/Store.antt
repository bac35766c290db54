-- ===== src/Sessions/State/Store.antt =====
-- `Store` of codebridge/sessions/state.py: the state file behind a cache. A method runs under the
-- file lock, so it is one step; the file is its signature and its content, or missing.
pub mod Coherent
pub mod Refines
pub mod Examples
use pycodebridge.Base.{
  ℕ, ◌==◌, Bool, true, false, not, ◌&&◌, List, [], ◌∷◌, Option, none, some, if◌then◌else◌,
}
use pycodebridge.Base.Integers.{ℤ, pos, negsuc}
use pycodebridge.Base.Text.{Text}
use pycodebridge.Base.Json.{Json}
use pycodebridge.Sessions.State.{FileState}
use pycodebridge.Sessions.State.Json.{read_state, to_dict}

-- `(st_mtime_ns, st_size)`
pub record Stamp : Type 0 where
  pub mtime_ns : ℕ
  pub size : ℕ

abbrev pub File : Type 0
File = Option (Stamp × Json)

pub record Store : Type 0 where
  pub cached_state : Option FileState
  pub cached_signature : Option Stamp
  pub cached_missing : Bool

-- `Store(…)`
pub new_store : Store
new_store = record { cached_state = none; cached_signature = none; cached_missing = false }

-- `FileState(version=CURRENT_VERSION, channels={})`
abbrev pub empty_file : FileState
empty_file = record {
  version = pos 1;
  channels = [];
  dm_bindings = [];
  runtime_options_global = [];
  runtime_options_channels = [];
}

-- `_set_cache`
abbrev pub cache_of : FileState → Option Stamp → Bool → Store
cache_of fs signature missing = record {
  cached_state = some fs;
  cached_signature = signature;
  cached_missing = missing;
}

abbrev pub same_stamp : Option Stamp → Stamp → Bool
same_stamp none t = false
same_stamp (some s) t = s.mtime_ns == t.mtime_ns && s.size == t.size

-- `if state.version == 0: state.version = CURRENT_VERSION`
abbrev current_version : ℤ → ℤ
current_version (pos n) = if n == 0 then pos 1 else pos n
current_version (negsuc n) = negsuc n

abbrev pub versioned : FileState → FileState
versioned fs = record fs { version = current_version fs.version }

load_missing : Store → Option FileState → FileState × Store
load_missing st none = (empty_file, cache_of empty_file none true)
load_missing st (some fs) =
    if st.cached_missing then (fs, st) else (empty_file, cache_of empty_file none true)

-- What reading the file came to; an exception leaves the cache as it was.
read_found : Store → Stamp → Option FileState → Option FileState × Store
read_found st signature none = (none, st)
read_found st signature (some fs) = (some fs, cache_of fs (some signature) false)

module _ (lower : Text → Text) (str_of : Json → Text) (int_of_text : Text → Option ℤ) where
  load_present : Store → Stamp → Json → Option FileState → Option FileState × Store
  load_present st signature json none =
      read_found st signature (read_state lower str_of int_of_text json)
  load_present st signature json (some fs) =
      if not st.cached_missing && same_stamp st.cached_signature signature
      then (some fs, st)
      else read_found st signature (read_state lower str_of int_of_text json)

  -- `load`, which is `_load_current_unlocked` and a copy
  pub load : Store → File → Option FileState × Store
  unfolding load_missing load_present read_found
  load st none = let (fs, st') = load_missing st st.cached_state in (some fs, st')
  load st (some (signature, json)) = load_present st signature json st.cached_state

  -- `_write_unlocked`; the new file has the signature `stamp`.
  pub write : FileState → Stamp → Store × File
  write fs stamp =
      let fs' = versioned fs in
      (cache_of fs' (some stamp) false, some (stamp, to_dict lower str_of int_of_text fs'))

  update_found :
      (FileState → FileState)
      → Stamp
      → File
      → Option FileState × Store
      → Option FileState × (Store × File)
  update_found mutator stamp file (none, st) = (none, (st, file))
  update_found mutator stamp file (some fs, st) =
      (some (versioned (mutator fs)), write (mutator fs) stamp)

  pub update : (FileState → FileState) → Stamp → Store → File → Option FileState × (Store × File)
  unfolding update_found
  update mutator stamp st file = update_found mutator stamp file (load st file)
