-- ===== src/Engine/Value.antt =====
-- src/engine/expr.rs: the values of expressions. `Json` is `serde_json::Value`; an object holds its
-- entries in the order of their keys. The numbers of JSON, and `f64`, are parameters.
use Prim.Native.String.{String}
use aegis_fs.Prelude.{Bool, true, false, ◌&&◌, Option, none, some, if◌then◌else◌}
use aegis_fs.Prelude.Eq.{◌==◌, string_eq}
use aegis_fs.Prelude.Text.{◌<>◌}

pub record Numbers : Type 1 where
  pub Number : Type 0  -- `serde_json::Number`
  pub F64 : Type 0
  pub zero_f64 : F64
  pub as_f64 : Number → Option F64
  pub from_f64 : F64 → Option Number
  pub same_f64 : F64 → F64 → Bool  -- `a == b`
  pub lt_f64 : F64 → F64 → Bool  -- `a < b`
  pub show_f64 : F64 → String  -- `{n}`

mutual
  pub data Json (N : Type 0) : Type 0 where
    null : Json N
    bool : Bool → Json N
    number : N → Json N
    string : String → Json N
    array : Items N → Json N
    object : Fields N → Json N

  pub data Items (N : Type 0) : Type 0 where
    nil : Items N
    cons : Json N → Items N → Items N

  pub data Fields (N : Type 0) : Type 0 where
    end : Fields N
    field : String → Json N → Fields N → Fields N

-- `ExprValue` has the same constructors, with `f64` for numbers.
abbrev pub ExprValue : Type 0 → Type 0
ExprValue F64 = Json F64

module _ {N : Type 0} where
  unfoldable pub get : String → Fields N → Option (Json N)
  get key end = none
  get key (field k v fs) = let rest = get key fs in if k == key then some v else rest

module _ {A B : Type 0} (f : A → Json B) where
  unfoldable mutual
    pub convert : Json A → Json B
    convert null = null
    convert (bool b) = bool b
    convert (number n) = f n
    convert (string s) = string s
    convert (array xs) = array (convert_items xs)
    convert (object fs) = object (convert_fields fs)

    pub convert_items : Items A → Items B
    convert_items nil = nil
    convert_items (cons x xs) = cons (convert x) (convert_items xs)

    pub convert_fields : Fields A → Fields B
    convert_fields end = end
    convert_fields (field k v fs) = field k (convert v) (convert_fields fs)

module _ (numbers : Numbers) where
  open numbers use {Number, F64, zero_f64, as_f64, from_f64, same_f64, show_f64}

  abbrev pub expr_number : Option F64 → ExprValue F64
  expr_number (some x) = number x
  expr_number none = number zero_f64

  abbrev pub json_number : Option Number → Json Number
  json_number (some n) = number n
  json_number none = null

  -- `ExprValue::from(json)` and `Json::from(value)`.
  abbrev pub from_json : Json Number → ExprValue F64
  from_json = convert (λ n. expr_number (as_f64 n))

  abbrev pub to_json : ExprValue F64 → Json Number
  to_json = convert (λ x. json_number (from_f64 x))

  -- `==` on values.
  unfoldable mutual
    pub same : ExprValue F64 → ExprValue F64 → Bool
    same null null = true
    same (bool a) (bool b) = if a then b else (if b then false else true)
    same (number a) (number b) = same_f64 a b
    same (string a) (string b) = a == b
    same (array xs) (array ys) = same_items xs ys
    same (object fs) (object gs) = same_fields fs gs
    same _ _ = false

    pub same_items : Items F64 → Items F64 → Bool
    same_items nil nil = true
    same_items (cons x xs) (cons y ys) = same x y && same_items xs ys
    same_items _ _ = false

    pub same_fields : Fields F64 → Fields F64 → Bool
    same_fields end end = true
    same_fields (field k v fs) (field j w gs) = k == j && (same v w && same_fields fs gs)
    same_fields _ _ = false

  -- `{v}` of a value; each element but the first stands behind a comma.
  unfoldable mutual
    pub display : ExprValue F64 → String
    display null = "null"
    display (bool b) = if b then "true" else "false"
    display (number n) = show_f64 n
    display (string s) = s
    display (array xs) = "[" <> display_items true xs <> "]"
    display (object fs) = "{" <> display_fields true fs <> "}"

    pub display_items : Bool → Items F64 → String
    display_items first nil = ""
    display_items first (cons x xs) =
        (if first then "" else ", ") <> display x <> display_items false xs

    pub display_fields : Bool → Fields F64 → String
    display_fields first end = ""
    display_fields first (field k v fs) =
        (if first then "" else ", ") <> "\"" <> k <> "\": " <> display v <> display_fields false fs
