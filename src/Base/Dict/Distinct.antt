-- ===== src/Base/Dict/Distinct.antt =====
-- Dictionaries whose keys differ, which is what every Python dict is.
use mathlib.Core.Path.{◌≡◌, refl, ap}
use mathlib.Core.Bool.{false}
use mathlib.Core.List.{[], ◌∷◌, ◌++◌, map}
use native.Mathlib.Omega.{arith}
use pycodebridge.Base.Lists.{All, All-append}
use pycodebridge.Base.Text.{Text, text_eq, text_eq_iff}
use pycodebridge.Base.Dict.{Dict, put}

-- No entry has the key.
abbrev pub Fresh {ℓ} : {V : Type ℓ} → Text → Dict V → Type 0
Fresh k d = All (λ e. text_eq e.0 k ≡ false) d

abbrev pub Distinct {ℓ} : {V : Type ℓ} → Dict V → Type 0
Distinct [] = Unit
Distinct ((k, v) ∷ d) = Fresh k d × Distinct d

-- No key of the second is one of the first.
abbrev pub Apart {ℓ κ} : {V : Type ℓ} {W : Type κ} → Dict V → Dict W → Type 0
Apart out d = All (λ e. Fresh e.0 out) d

pub put-Fresh {ℓ} :
    {V : Type ℓ} (k : Text) (v : V) (d : Dict V) → Fresh k d → put k v d ≡ d ++ (k, v) ∷ []
unfolding put
put-Fresh k v [] a = refl
put-Fresh k v ((j, w) ∷ d) a = rw a.0 (ap (◌∷◌ (j, w)) (put-Fresh k v d a.1))

pub Apart-nil {ℓ κ} : (V : Type ℓ) {W : Type κ} (d : Dict W) → Apart {V = V} [] d
Apart-nil V [] = tt
Apart-nil V (e ∷ d) = (tt, Apart-nil V d)

pub Apart-next {ℓ κ} :
    {V : Type ℓ} {W : Type κ} (k : Text) (v : V) (out : Dict V) (d : Dict W)
    → Apart out d
    → Fresh k d
    → Apart (out ++ (k, v) ∷ []) d
Apart-next k v out [] a f = tt
Apart-next k v out (e ∷ d) a f = (
  All-append (λ x. text_eq x.0 e.0 ≡ false) out ((k, v) ∷ []) a.0
      (ground (arith, f.0, text_eq_iff k e.0, text_eq_iff e.0 k), tt),
  Apart-next k v out d a.1 f.1,
)

pub map_entries {ℓ} : {V : Type ℓ} (d : Dict V) → map (λ e. (e.0, e.1)) d ≡ d
map_entries [] = refl
map_entries (e ∷ d) = ap (◌∷◌ e) (map_entries d)
