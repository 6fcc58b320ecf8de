-- ===== src/Json.antt =====
-- The values of Go's `map[string]any`: decoded JSON and the messages that the program builds.
pub mod Equal
pub mod Lookup
pub mod Escape
pub mod Print
pub mod Closed
pub mod Members
use exoclaw_go.Prelude.{ℕ, String, Bool, true, false, Option, none, some, str_eq, if◌then◌else◌}

-- `int` and `float` hold the 64 bits of an int64 and of a float64; `arr` is a `[]any`, as decoded
-- JSON has it, and `maps` a `[]map[string]any`, which a type assertion to `[]any` refuses.
mutual
  pub data Value : Type 0 where
    null : Value
    boolean : Bool → Value
    int : ℕ → Value
    float : ℕ → Value
    str : String → Value
    obj : Fields → Value
    arr : Items → Value
    maps : Items → Value

  pub data Fields : Type 0 where
    end : Fields
    field : String → Value → Fields → Fields

  pub data Items : Type 0 where
    nil : Items
    cons : Value → Items → Items

-- `m[k]` with its presence.
unfoldable pub get : String → Fields → Option Value
get k end = none
get k (field j v fs) = if str_eq j k then some v else get k fs

-- `s, _ := v.(string)` of an entry.
abbrev pub str_of : Option Value → String
str_of (some (str s)) = s
str_of _ = ""

-- `xs, _ := v.([]any)` of an entry; nil and the empty slice are not told apart.
abbrev pub items_of : Option Value → Items
items_of (some (arr xs)) = xs
items_of _ = nil

-- `m[k] = v`
unfoldable pub put : String → Value → Fields → Fields
put k v end = field k v end
put k v (field j u fs) =
    let rest = put k v fs in if str_eq j k then field j v fs else field j u rest

-- `delete(m, k)`
unfoldable pub delete : String → Fields → Fields
delete k end = end
delete k (field j u fs) = let rest = delete k fs in if str_eq j k then rest else field j u rest
