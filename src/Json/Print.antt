-- ===== src/Json/Print.antt =====
-- json.Marshal of a map: members in the order of their keys, and no two of one key. Slices are never
-- nil. `float_text` is the text of a float64, if it is finite.
use exoclaw_go.Prelude.{ℕ, String, Option, none, some, List, [], ◌∷◌, if◌then◌else◌, str_eq}
use exoclaw_go.Prelude.Text.{◌<>◌}
use exoclaw_go.Json.{
  Value, null, boolean, int, float, str, arr, maps, obj, Items, nil, cons, Fields, end, field,
}
use exoclaw_go.Json.Escape.{int_text, quote, text_lt}

-- A key with the text of its value.
abbrev pub Entry : Type 0
Entry = String × String

-- The newest entry of a key stays.
unfoldable pub insert_entry : Entry → List Entry → List Entry
insert_entry e [] = e ∷ []
insert_entry e (f ∷ fs) =
    let later = insert_entry e fs in
    if str_eq e.0 f.0 then e ∷ fs else if text_lt f.0 e.0 then f ∷ later else e ∷ f ∷ fs

unfoldable pub sort_entries : List Entry → List Entry
sort_entries [] = []
sort_entries (e ∷ es) = insert_entry e (sort_entries es)

abbrev pub map₂ : {A B C : Type 0} → (A → B → C) → Option A → Option B → Option C
map₂ f none b = none
map₂ f (some a) none = none
map₂ f (some a) (some b) = some (f a b)

abbrev pub map_some : {A B : Type 0} → (A → B) → Option A → Option B
map_some f none = none
map_some f (some a) = some (f a)

abbrev pub member_text : Entry → String
member_text e = quote e.0 <> (":" <> e.1)

-- The members, the first of them behind `separator`.
unfoldable pub members : String → List Entry → String
members separator [] = ""
members separator (e ∷ es) = separator <> (member_text e <> members "," es)

unfoldable pub object_text : List Entry → String
object_text es = "{" <> (members "" es <> "}")

unfoldable pub elements : String → List String → String
elements separator [] = ""
elements separator (t ∷ ts) = separator <> (t <> elements "," ts)

unfoldable pub array_text : List String → String
array_text ts = "[" <> (elements "" ts <> "]")

abbrev pub with_entry : String → String → List Entry → List Entry
with_entry k t es = (k, t) ∷ es

abbrev pub with_text : String → List String → List String
with_text t ts = t ∷ ts

module _ (float_text : ℕ → Option String) where
  unfoldable mutual
    pub print_value : Value → Option String
    print_value null = some "null"
    print_value (boolean b) = some (if b then "true" else "false")
    print_value (int n) = some (int_text n)
    print_value (float bits) = float_text bits
    print_value (str s) = some (quote s)
    print_value (arr xs) = map_some array_text (print_items xs)
    print_value (maps xs) = map_some array_text (print_items xs)
    print_value (obj fs) = map_some (λ es. object_text (sort_entries es)) (print_fields fs)

    pub print_fields : Fields → Option (List Entry)
    print_fields end = some []
    print_fields (field k v fs) = map₂ (with_entry k) (print_value v) (print_fields fs)

    pub print_items : Items → Option (List String)
    print_items nil = some []
    print_items (cons v vs) = map₂ with_text (print_value v) (print_items vs)

  -- json.Marshal of a map[string]any
  abbrev pub marshal : Fields → Option String
  marshal fs = print_value (obj fs)
