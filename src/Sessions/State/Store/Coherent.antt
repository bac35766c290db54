-- ===== src/Sessions/State/Store/Coherent.antt =====
-- When the cache of a store agrees with the file, and that each operation keeps it so.
use pycodebridge.Base.{
  ℕ, ◌≤◌, ◌<◌, ◌≡◌, refl, sym, ap, ◌∙◌, arith, true, false, not, ◌&&◌, Option, none, some, if_intro,
  subst,
}
use pycodebridge.Base.Integers.{ℤ}
use pycodebridge.Base.Options.{some_injective}
use pycodebridge.Base.Text.{Text}
use pycodebridge.Base.Json.{Json}
use pycodebridge.Sessions.State.{FileState}
use pycodebridge.Sessions.State.Json.{read_state, to_dict}
use pycodebridge.Sessions.State.Json.RoundTrip.{IsStored, read-to_dict}
use pycodebridge.Sessions.State.Store.{
  Stamp, File, Store, new_store, empty_file, cache_of, same_stamp, versioned, load_missing,
  read_found, load_present, load, write,
}

module _ (lower : Text → Text) (str_of : Json → Text) (int_of_text : Text → Option ℤ) where
  abbrev pub read : Json → Option FileState
  read = read_state lower str_of int_of_text

  abbrev pub dump : FileState → Json
  dump = to_dict lower str_of int_of_text

  abbrev pub Stored : FileState → Type 0
  Stored = IsStored lower str_of int_of_text

  -- The file holds `c`.
  abbrev pub Shows : File → FileState → Type 0
  Shows none c = c ≡ empty_file
  Shows (some (stamp, json)) c = read json ≡ some c

  pub record Coherent (n : ℕ) (st : Store) (file : File) (c : FileState) : Type 0 where
    pub content : Stored c
    pub shows : Shows file c
    pub recent : (s : Stamp) (json : Json) → file ≡ some (s, json) → s.mtime_ns ≤ n
    pub missing :
        (fs : FileState) → st.cached_missing ≡ true → st.cached_state ≡ some fs → fs ≡ empty_file
    pub hit :
        (fs : FileState) (s : Stamp) (json : Json)
        → file ≡ some (s, json)
        → st.cached_missing ≡ false
        → st.cached_state ≡ some fs
        → same_stamp st.cached_signature s ≡ true
        → read json ≡ some fs
    pub old : (s : Stamp) → st.cached_signature ≡ some s → s.mtime_ns ≤ n

  versioned-Stored : (fs : FileState) → Stored fs → Stored (versioned fs)
  versioned-Stored fs v = record {
    channels = v.channels;
    channel_ids = v.channel_ids;
    bindings = v.bindings;
    users = v.users;
    global = v.global;
    scopes = v.scopes;
    scope_ids = v.scope_ids;
  }

  empty-Stored : Stored empty_file
  empty-Stored = record {
    channels = tt;
    channel_ids = tt;
    bindings = tt;
    users = tt;
    global = record { values = tt; keys = tt };
    scopes = tt;
    scope_ids = tt;
  }

  -- What a write leaves, in the cache as in the file.
  cached-Coherent :
      (n : ℕ) (fs : FileState) (s : Stamp) (json : Json)
      → s.mtime_ns ≤ n
      → Stored fs
      → read json ≡ some fs
      → Coherent n (cache_of fs (some s) false) (some (s, json)) fs
  cached-Coherent n fs s json h v r = record {
    content = v;
    shows = r;
    recent = λ t j f. rw (← ap (λ e. e.0.mtime_ns) (some_injective (s, json) (t, j) f)) h;
    missing = λ g m e. cc;
    hit =
        λ g t j f m e t'. ap read (sym (ap (λ e. e.1) (some_injective (s, json) (t, j) f))) ∙ r ∙ e;
    old = λ t e. rw (← ap (λ x. x.mtime_ns) (some_injective s t e)) h;
  }

  pub write-Coherent :
      (n : ℕ) (fs : FileState) (s : Stamp)
      → s.mtime_ns ≤ n
      → Stored fs
      → Coherent n
          (write lower str_of int_of_text fs s).0
          (write lower str_of int_of_text fs s).1
          (versioned fs)
  unfolding write
  write-Coherent n fs s h v =
      cached-Coherent n (versioned fs) s (dump (versioned fs)) h (versioned-Stored fs v)
        (read-to_dict lower str_of int_of_text (versioned fs) (versioned-Stored fs v))

  -- The file was missing: an empty state is cached.
  fresh-Coherent : (n : ℕ) → Coherent n (cache_of empty_file none true) none empty_file
  fresh-Coherent n = record {
    content = empty-Stored;
    shows = refl;
    recent = λ t j f. cc;
    missing = λ g m e. sym (some_injective empty_file g e);
    hit = λ g t j f m e t'. cc;
    old = λ t e. cc;
  }

  -- What a load comes to, by the result and the store that it leaves.
  pub record Loaded (n : ℕ) (file : File) (c : FileState) (r : Option FileState × Store)
      : Type 0 where
    pub result : r.0 ≡ some c
    pub after : Coherent n r.1 file c

  missing-Loaded :
      (n : ℕ) (st : Store) (c : FileState) (found : Option FileState)
      → st.cached_state ≡ found
      → Coherent n st none c
      → Loaded n none c (some (load_missing st found).0, (load_missing st found).1)
  unfolding load_missing
  missing-Loaded n st c none e v = record {
    result = ap some (sym v.shows);
    after =
        subst (Coherent n (cache_of empty_file none true) none) (sym v.shows) (fresh-Coherent n);
  }
  missing-Loaded n st c (some fs) e v =
      if_intro (λ (r : FileState × Store). Loaded n none c (some r.0, r.1)) st.cached_missing
        (fs, st) (empty_file, cache_of empty_file none true)
        (λ m. record { result = ap some (v.missing fs m e ∙ sym v.shows); after = v })
        (λ _. record {
          result = ap some (sym v.shows);
          after =
              subst (Coherent n (cache_of empty_file none true) none) (sym v.shows)
                (fresh-Coherent n);
        })

  found-Loaded :
      (n : ℕ) (st : Store) (s : Stamp) (json : Json) (c : FileState)
      → Coherent n st (some (s, json)) c
      → Loaded n (some (s, json)) c (read_found st s (read json))
  unfolding read_found
  found-Loaded n st s json c v = rw v.shows (record {
    result = refl;
    after = cached-Coherent n c s json (v.recent s json refl) v.content v.shows;
  })

  present-Loaded :
      (n : ℕ) (st : Store) (s : Stamp) (json : Json) (c : FileState) (found : Option FileState)
      → st.cached_state ≡ found
      → Coherent n st (some (s, json)) c
      → Loaded n (some (s, json)) c (load_present lower str_of int_of_text st s json found)
  unfolding load_present
  present-Loaded n st s json c none e v = found-Loaded n st s json c v
  present-Loaded n st s json c (some fs) e v =
      if_intro (Loaded n (some (s, json)) c)
        (not st.cached_missing && same_stamp st.cached_signature s) (some fs, st)
        (read_found st s (read json))
        (λ t. record {
          result = sym (v.hit fs s json refl (ground (arith, t)) e (ground (arith, t))) ∙ v.shows;
          after = v;
        })
        (λ _. found-Loaded n st s json c v)

  pub load-Loaded :
      (n : ℕ) (st : Store) (file : File) (c : FileState)
      → Coherent n st file c
      → Loaded n file c (load lower str_of int_of_text st file)
  unfolding load
  load-Loaded n st none c v = missing-Loaded n st c st.cached_state refl v
  load-Loaded n st (some (s, json)) c v = present-Loaded n st s json c st.cached_state refl v

  older :
      (n : ℕ) (o : Option Stamp) (s t : Stamp)
      → ((x : Stamp) → o ≡ some x → x.mtime_ns ≤ n)
      → n < s.mtime_ns
      → s ≡ t
      → same_stamp o t ≡ false
  older n none s t h lt e = refl
  older n (some x) s t h lt e = ground (arith, h x refl, lt, ap (λ y. y.mtime_ns) e)

  -- Another process replaces the file.
  pub replaced-Coherent :
      (n : ℕ) (st : Store) (file : File) (c fs : FileState) (s : Stamp)
      → n < s.mtime_ns
      → Stored fs
      → Coherent n st file c
      → Coherent s.mtime_ns st (some (s, dump fs)) fs
  replaced-Coherent n st file c fs s lt v h = record {
    content = v;
    shows = read-to_dict lower str_of int_of_text fs v;
    recent = λ t j f. omega (arith, ap (λ e. e.0.mtime_ns) (some_injective (s, dump fs) (t, j) f));
    missing = h.missing;
    hit = λ g t j f m e t'.
        let is_s = ap (λ x. x.0) (some_injective (s, dump fs) (t, j) f) in
        cc (t', older n st.cached_signature s t h.old lt is_s);
    old = λ t e. omega (arith, h.old t e, lt);
  }

  pub removed-Coherent :
      (n : ℕ) (st : Store) (file : File) (c : FileState)
      → Coherent n st file c
      → Coherent n st none empty_file
  removed-Coherent n st file c h = record {
    content = empty-Stored;
    shows = refl;
    recent = λ t j f. cc;
    missing = h.missing;
    hit = λ g t j f m e t'. cc;
    old = h.old;
  }

  pub new-Coherent : Coherent 0 new_store none empty_file
  unfolding new_store
  new-Coherent = record {
    content = empty-Stored;
    shows = refl;
    recent = λ t j f. cc;
    missing = λ g m e. cc;
    hit = λ g t j f m e t'. cc;
    old = λ t e. cc;
  }
