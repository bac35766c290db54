-- ===== src/Sessions/State/Json/RoundTrip.antt =====
-- What `_to_dict` writes is what `_from_dict` reads.
use pycodebridge.Base.{
  false, ◌≡◌, refl, sym, ap, ◌∙◌, [], ◌∷◌, ◌++◌, Option, none, some, All, map, append_assoc,
  append-nil,
}
use pycodebridge.Base.Integers.{ℤ}
use pycodebridge.Base.Text.{Text, text_eq, is_empty}
use pycodebridge.Base.Dict.{Dict, get}
use pycodebridge.Base.Dict.Distinct.{Distinct, Apart, put-Fresh, Apart-nil, Apart-next, map_entries}
use pycodebridge.Base.Json.{Json, text, object, entries-fields_of}
use pycodebridge.Routing.Repos.{is_nil, repo_key}
use pycodebridge.Sessions.State.{SessionState, ChannelState, FileState, OptionValue}
use pycodebridge.Sessions.State.Values.{
  collect, collect_all, dict_or_empty, dict_of, text_of, dict_or_none, parse_bool, int_of,
  normalize_option, normalize_value, normalize_options,
}
use pycodebridge.Sessions.State.Json.{
  json_of, encode_session, encode_channel, encode_scope, to_dict, decode_session, decode_channel,
  migrate_one, migrate_legacy, without_sessions, binding, scope_options, from_dict, read_state,
}

module _ {ℓ κ μ} {A : Type ℓ} {B : Type κ} {C : Type μ} (g : C → A) (h : C → B) where
  -- A loop that takes every item and keeps the keys is a map.
  collect-map :
      (f : Text → A → Option B) (d : Dict C) (out : Dict B)
      → All (λ e. f e.0 (g e.1) ≡ some (h e.1)) d
      → Distinct d
      → Apart out d
      → collect f (map (λ e. (e.0, g e.1)) d) out ≡ out ++ map (λ e. (e.0, h e.1)) d
  unfolding collect
  collect-map f [] out a u ap = sym (append-nil out)
  collect-map f ((k, c) ∷ d) out a u apart = rw a.0 (
      rw (put-Fresh k (h c) out apart.0) (
        collect-map f d (out ++ (k, h c) ∷ []) a.1 u.1 (Apart-next k (h c) out d apart.1 u.0)
        ∙ append_assoc out ((k, h c) ∷ []) (map (λ e. (e.0, h e.1)) d)))

  collect_all-map :
      (f : A → Option B) (d : Dict C) (out : Dict B)
      → All (λ e. f (g e.1) ≡ some (h e.1)) d
      → Distinct d
      → Apart out d
      → collect_all f (map (λ e. (e.0, g e.1)) d) out ≡ some (out ++ map (λ e. (e.0, h e.1)) d)
  unfolding collect_all
  collect_all-map f [] out a u apart = ap some (sym (append-nil out))
  collect_all-map f ((k, c) ∷ d) out a u apart = rw a.0 (
      rw (put-Fresh k (h c) out apart.0) (
        collect_all-map f d (out ++ (k, h c) ∷ []) a.1 u.1 (Apart-next k (h c) out d apart.1 u.0)
        ∙ ap some (append_assoc out ((k, h c) ∷ []) (map (λ e. (e.0, h e.1)) d))))

-- From an empty dict, with a reader `f` that undoes the writer `g`.
module _ {ℓ κ} {A : Type ℓ} {B : Type κ} (g : B → A) where
  collect-undo :
      (f : Text → A → Option B) (d : Dict B)
      → All (λ e. f e.0 (g e.1) ≡ some e.1) d
      → Distinct d
      → collect f (map (λ e. (e.0, g e.1)) d) [] ≡ d
  collect-undo f d a u = collect-map g (λ b. b) f d [] a u (Apart-nil B d) ∙ map_entries d

  collect_all-undo :
      (f : A → Option B) (d : Dict B)
      → All (λ e. f (g e.1) ≡ some e.1) d
      → Distinct d
      → collect_all f (map (λ e. (e.0, g e.1)) d) [] ≡ some d
  collect_all-undo f d a u =
      collect_all-map g (λ b. b) f d [] a u (Apart-nil B d) ∙ ap some (map_entries d)

All_text : (d : Dict Text) → All (λ e. text_of (text e.1) ≡ some e.1) d
unfolding text_of
All_text [] = tt
All_text (e ∷ d) = (refl, All_text d)

dict_or_empty-object : (d : Dict Json) → dict_or_empty (object d) ≡ some d
unfolding dict_or_empty
dict_or_empty-object d = ap some (entries-fields_of d)

module _ (lower : Text → Text) (str_of : Json → Text) (int_of_text : Text → Option ℤ) where
  -- The repository's name is normalised.
  abbrev pub IsNamed : SessionState → Type 0
  IsNamed s = repo_key lower s.repo_name ≡ s.repo_name

  pub record IsChannel (ch : ChannelState) : Type 0 where
    pub names : All (λ e. IsNamed e.1) ch.sessions
    pub sessions : Distinct ch.sessions
    pub sticky : Distinct ch.sticky

  -- A dictionary of options that the normalisation leaves as it is.
  pub record AreOptions (d : Dict OptionValue) : Type 0 where
    pub values : All (λ e. normalize_option lower str_of int_of_text e.0 (json_of e.1) ≡ some e.1) d
    pub keys : Distinct d

  -- The states that files hold: names normalised, options known and in range, no empty scope, and
  -- dictionaries with one entry for each key.
  pub record IsStored (fs : FileState) : Type 0 where
    pub channels : All (λ e. IsChannel e.1) fs.channels
    pub channel_ids : Distinct fs.channels
    pub bindings : All (λ e. (repo_key lower e.1 ≡ e.1) × (is_empty e.1 ≡ false)) fs.dm_bindings
    pub users : Distinct fs.dm_bindings
    pub global : AreOptions fs.runtime_options_global
    pub scopes : All (λ e. AreOptions e.1 × (is_nil e.1 ≡ false)) fs.runtime_options_channels
    pub scope_ids : Distinct fs.runtime_options_channels

  decode-encode_session :
      (s : SessionState)
      → IsNamed s
      → decode_session lower str_of int_of_text (encode_session s) ≡ some s
  unfolding decode_session encode_session dict_of text_of normalize_value parse_bool get text_eq
  decode-encode_session s n = rw n refl

  sessions_undo :
      (d : Dict SessionState)
      → All (λ e. IsNamed e.1) d
      → All (λ e. decode_session lower str_of int_of_text (encode_session e.1) ≡ some e.1) d
  sessions_undo [] a = tt
  sessions_undo (e ∷ d) a = (decode-encode_session e.1 a.0, sessions_undo d a.1)

  decode-encode_channel :
      (ch : ChannelState)
      → IsChannel ch
      → decode_channel lower str_of int_of_text (encode_channel ch) ≡ some ch
  unfolding decode_channel encode_channel get text_eq dict_or_empty
  decode-encode_channel ch v =
      rw
        (
          entries-fields_of,
          entries-fields_of,
          collect_all-undo encode_session (decode_session lower str_of int_of_text) ch.sessions
              (sessions_undo ch.sessions v.names) v.sessions,
          collect_all-undo text text_of ch.sticky (All_text ch.sticky) v.sticky,
        )
        refl

  channels_undo :
      (d : Dict ChannelState)
      → All (λ e. IsChannel e.1) d
      → All (λ e. decode_channel lower str_of int_of_text (encode_channel e.1) ≡ some e.1) d
  channels_undo [] a = tt
  channels_undo (e ∷ d) a = (decode-encode_channel e.1 a.0, channels_undo d a.1)

  -- A channel of the new format is left alone by the migration.
  migrate_one-encode :
      (ch : ChannelState) (found : Option ChannelState)
      → migrate_one lower str_of int_of_text (encode_channel ch) found ≡ some none
  unfolding encode_channel dict_of get text_eq
  migrate_one-encode ch none = refl
  migrate_one-encode ch (some c) = refl

  migrate_legacy-encode :
      (d : Dict ChannelState) (channels : Dict ChannelState)
      → migrate_legacy lower str_of int_of_text (map (λ e. (e.0, encode_channel e.1)) d) channels
        ≡ some channels
  unfolding migrate_legacy
  migrate_legacy-encode [] channels = refl
  migrate_legacy-encode ((k, ch) ∷ d) channels =
      rw (migrate_one-encode ch (without_sessions lower str_of int_of_text (get k channels)))
        (migrate_legacy-encode d channels)

  options_undo :
      (d : Dict OptionValue)
      → AreOptions d
      → normalize_options lower str_of int_of_text (map (λ e. (e.0, json_of e.1)) d) ≡ d
  unfolding normalize_options
  options_undo d v =
      collect-undo json_of (normalize_option lower str_of int_of_text) d v.values v.keys

  -- What a scope's options are written as.
  abbrev json_options : Dict OptionValue → Json
  json_options d = object (map (λ e. (e.0, json_of e.1)) d)

  scopes_kept :
      (d : Dict (Dict OptionValue))
      → All (λ e. AreOptions e.1 × (is_nil e.1 ≡ false)) d
      → All (λ e. encode_scope lower str_of int_of_text e.0 e.1 ≡ some (json_options e.1)) d
  scopes_kept [] a = tt
  scopes_kept ((k, o) ∷ d) a = (rw (options_undo o a.0.0, a.0.1) refl, scopes_kept d a.1)

  scopes_undo :
      (d : Dict (Dict OptionValue))
      → All (λ e. AreOptions e.1 × (is_nil e.1 ≡ false)) d
      → All (λ e. scope_options lower str_of int_of_text e.0 (json_options e.1) ≡ some e.1) d
  unfolding dict_or_none
  scopes_undo [] a = tt
  scopes_undo ((k, o) ∷ d) a =
      (rw (entries-fields_of, options_undo o a.0.0, a.0.1) refl, scopes_undo d a.1)

  scopes_written :
      (d : Dict (Dict OptionValue))
      → All (λ e. AreOptions e.1 × (is_nil e.1 ≡ false)) d
      → Distinct d
      → collect (encode_scope lower str_of int_of_text) d [] ≡ map (λ e. (e.0, json_options e.1)) d
  scopes_written d a u =
      ap (λ x. collect (encode_scope lower str_of int_of_text) x []) (sym (map_entries d))
      ∙ collect-map (λ o. o) json_options (encode_scope lower str_of int_of_text) d []
          (scopes_kept d a) u (Apart-nil Json d)

  bindings_undo :
      (d : Dict Text)
      → All (λ e. (repo_key lower e.1 ≡ e.1) × (is_empty e.1 ≡ false)) d
      → All (λ e. binding lower str_of int_of_text e.0 (text e.1) ≡ some e.1) d
  unfolding normalize_value
  bindings_undo [] a = tt
  bindings_undo ((k, v) ∷ d) a = (rw (a.0.0, a.0.1) refl, bindings_undo d a.1)

  -- Reading what was written gives the state back, in the same order, for a state that is already
  -- normalised: the names of repositories are what the normalisation makes of them, every option is
  -- one of those that `_normalize_runtime_option_value` knows with the value that it makes of it, no
  -- channel's options are empty, and no dictionary has a key twice. A state with another runtime
  -- option is not covered: writing drops that one. `lower`, `str` and `int` on texts may be any
  -- functions.
  pub read-to_dict :
      (fs : FileState)
      → IsStored fs
      → read_state lower str_of int_of_text (to_dict lower str_of int_of_text fs) ≡ some fs
  unfolding read_state from_dict to_dict dict_of dict_or_empty get text_eq int_of
  read-to_dict fs v =
      rw
        (
          scopes_written fs.runtime_options_channels v.scopes v.scope_ids,
          options_undo fs.runtime_options_global v.global,
        )
        (rw (entries-fields_of, entries-fields_of, entries-fields_of, entries-fields_of)
          (rw
            (
              collect_all-undo encode_channel (decode_channel lower str_of int_of_text) fs.channels
                  (channels_undo fs.channels v.channels) v.channel_ids,
              migrate_legacy-encode fs.channels fs.channels,
              collect-undo text (binding lower str_of int_of_text) fs.dm_bindings
                  (bindings_undo fs.dm_bindings v.bindings) v.users,
              options_undo fs.runtime_options_global v.global,
              collect-undo json_options (scope_options lower str_of int_of_text)
                  fs.runtime_options_channels (scopes_undo fs.runtime_options_channels v.scopes)
                  v.scope_ids,
            )
            refl))
