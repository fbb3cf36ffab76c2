-- ===== src/Json.antt =====
-- Values that `JSON.parse` returns (packages/relay/src/routes/ops.ts, packages/core/src/storage).
-- A number that is not a non-negative integer is kept as its decimal text; the keys of an object are
-- distinct, as they are after a parse.
use kontexta.Base.{
  ℕ, String, Bool, Option, none, some, List, [], ◌∷◌, if◌then◌else◌, ◌==◌, nat_eq, string_eq,
}

-- A number that is no natural number is the text that JavaScript prints for it.
pub data JsNumber : Type 0 where
  nat : ℕ → JsNumber
  other : String → JsNumber

mutual
  pub data Json : Type 0 where
    null : Json
    bool : Bool → Json
    num : JsNumber → Json
    str : String → Json
    arr : Items → Json
    obj : Fields → Json

  pub data Items : Type 0 where
    nil : Items
    cons : Json → Items → Items

  pub data Fields : Type 0 where
    end : Fields
    field : String → Json → Fields → Fields

-- `o.name`; `none` is `undefined`
unfoldable pub member : String → Fields → Option Json
member name end = none
member name (field k v rest) = if k == name then some v else member name rest

pub items : Items → List Json
items nil = []
items (cons v rest) = v ∷ items rest
