-- ===== src/Base/Json.antt =====
-- JSON values, as the program keeps them in `dict`s and in JSON columns.
use Prim.Native.Nat.{ℕ}
use Prim.Native.String.{String}
use mathlib.Core.Bool.{Bool}
use mathlib.Core.Option.{Option, none, some}
use mathlib.Core.List.{List, [], ◌∷◌}
use kyrgstudio.Base.Tests.{str_eq, if◌then◌else◌}
use kyrgstudio.Base.Int.{ℤ}

-- A Python float, by the bits of its double.
abbrev pub Float : Type 0
Float = ℕ

mutual
  pub data Json : Type 0 where
    null : Json
    bool : Bool → Json
    int : ℤ → Json
    float : Float → Json
    text : String → Json
    object : Fields → Json
    array : Items → Json

  pub data Fields : Type 0 where
    end : Fields
    field : String → Json → Fields → Fields

  pub data Items : Type 0 where
    nil : Items
    item : Json → Items → Items

abbrev pub present : Json → Option Json
present null = none
present v = some v

-- `d.get(key)`: `none` for a key that is missing, and for the value `None`
unfoldable pub get : String → Fields → Option Json
get key end = none
get key (field k v rest) = if str_eq k key then present v else get key rest

-- `d[key] = value`
unfoldable pub put : String → Json → Fields → Fields
put key v end = field key v end
put key v (field k w rest) = if str_eq k key then field k v rest else field k w (put key v rest)

-- `first.update(second)`
unfoldable pub merge : Fields → Fields → Fields
unfolding put
merge first end = first
merge first (field k v rest) = merge (put k v first) rest

-- A Python list of strings.
abbrev pub texts : List String → Items
texts [] = nil
texts (s ∷ rest) = item (text s) (texts rest)

-- `None` or the text
abbrev pub text_or_null : Option String → Json
text_or_null none = null
text_or_null (some s) = text s
