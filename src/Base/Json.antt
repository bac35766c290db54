-- ===== src/Base/Json.antt =====
-- JSON values, as `json.load` gives them and `json.dump` takes them; the numbers are integers.
use Prim.Native.Nat.{zero, suc}
use mathlib.Core.Path.{◌≡◌, refl, ap}
use mathlib.Core.Bool.{Bool, true, false, not}
use mathlib.Core.List.{[], ◌∷◌}
use pycodebridge.Base.Text.{Text, is_empty}
use pycodebridge.Base.Dict.{Dict}
use pycodebridge.Base.Integers.{ℤ, pos, negsuc}

mutual
  pub data Json : Type 0 where
    null : Json
    bool : Bool → Json
    num : ℤ → Json
    text : Text → Json
    arr : Items → Json
    obj : Fields → Json

  pub data Items : Type 0 where
    no_items : Items
    item : Json → Items → Items

  pub data Fields : Type 0 where
    no_fields : Fields
    field : Text → Json → Fields → Fields

-- An object as the dict that it is in Python, and back.
abbrev pub entries : Fields → Dict Json
entries no_fields = []
entries (field k v fs) = (k, v) ∷ entries fs

abbrev pub fields_of : Dict Json → Fields
fields_of [] = no_fields
fields_of ((k, v) ∷ d) = field k v (fields_of d)

abbrev pub object : Dict Json → Json
object d = obj (fields_of d)

pub entries-fields_of : (d : Dict Json) → entries (fields_of d) ≡ d
entries-fields_of [] = refl
entries-fields_of ((k, v) ∷ d) = ap (◌∷◌ (k, v)) (entries-fields_of d)

-- bool(v)
abbrev pub truthy : Json → Bool
truthy null = false
truthy (bool b) = b
truthy (num (pos zero)) = false
truthy (num (pos (suc n))) = true
truthy (num (negsuc n)) = true
truthy (text t) = not (is_empty t)
truthy (arr no_items) = false
truthy (arr (item v vs)) = true
truthy (obj no_fields) = false
truthy (obj (field k v fs)) = true
