-- ===== src/Common/Json.antt =====
-- Values of a type that the source leaves open (`Any`), as JSON gives them.
use mathlib.Core.List.{List, [], ◌∷◌}
use mathlib.Core.Bool.{Bool}
use totalrecall.Common.Text.{String}
use totalrecall.Common.Dict.{Dict}
use totalrecall.Common.Int.{ℤ}

-- A floating-point number, carried as its text: the program hands these on, and the model does not
-- compute with them.
pub data Float : Type 0 where
  literal : String → Float

mutual
  pub data Json : Type 0 where
    null : Json
    bool : Bool → Json
    int : ℤ → Json
    float : Float → Json
    str : String → Json
    arr : Items → Json
    obj : Fields → Json

  pub data Items : Type 0 where
    nil : Items
    cons : Json → Items → Items

  pub data Fields : Type 0 where
    end : Fields
    field : String → Json → Fields → Fields

-- An object's entries, and an array's elements.
unfoldable pub entries : Fields → Dict Json
entries end = []
entries (field k v rest) = (k, v) ∷ entries rest

unfoldable pub elements : Items → List Json
elements nil = []
elements (cons v rest) = v ∷ elements rest
