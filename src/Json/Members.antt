-- ===== src/Json/Members.antt =====
-- The texts of values in json.Marshal do not end with an opening brace.
use exoclaw_go.Prelude.{ℕ, Option, none, some, List, [], ◌∷◌, All, refl, String, true, false, arith}
use exoclaw_go.Prelude.Text.{◌<>◌, last_is}
use exoclaw_go.Json.{Value, null, boolean, int, float, str, arr, maps, obj, Fields, end, field}
use exoclaw_go.Json.Print.{
  Entry, insert_entry, sort_entries, map₂, map_some, members, object_text, elements, array_text,
  with_entry, print_value, print_fields, print_items,
}
use exoclaw_go.Json.Closed.{
  is_empty-append, IsClosed, IsClosed-behind, quote-IsClosed, int_text-IsClosed,
}

-- The text of an entry does not end with an opening brace.
abbrev pub IsClosedEntry : Entry → Type 0
IsClosedEntry e = IsClosed e.1

abbrev pub IsClosedIfAny : Option String → Type 0
IsClosedIfAny none = Unit
IsClosedIfAny (some t) = IsClosed t

abbrev pub AreClosedIfAny : Option (List Entry) → Type 0
AreClosedIfAny none = Unit
AreClosedIfAny (some es) = All IsClosedEntry es

object_text-IsClosed : (es : List Entry) → IsClosed (object_text es)
unfolding object_text last_is
object_text-IsClosed es =
    IsClosed-behind "{" (members "" es <> "}") (is_empty-append (members "" es) "}" refl)
      (IsClosed-behind (members "" es) "}" refl refl)

array_text-IsClosed : (ts : List String) → IsClosed (array_text ts)
unfolding array_text last_is
array_text-IsClosed ts =
    IsClosed-behind "[" (elements "" ts <> "]") (is_empty-append (elements "" ts) "]" refl)
      (IsClosed-behind (elements "" ts) "]" refl refl)

object-IsClosedIfAny :
    (o : Option (List Entry)) → IsClosedIfAny (map_some (λ es. object_text (sort_entries es)) o)
object-IsClosedIfAny none = tt
object-IsClosedIfAny (some es) = object_text-IsClosed (sort_entries es)

array-IsClosedIfAny : (o : Option (List String)) → IsClosedIfAny (map_some array_text o)
array-IsClosedIfAny none = tt
array-IsClosedIfAny (some ts) = array_text-IsClosed ts

with_entry-AreClosedIfAny :
    (k : String) (o : Option String) (os : Option (List Entry))
    → IsClosedIfAny o
    → AreClosedIfAny os
    → AreClosedIfAny (map₂ (with_entry k) o os)
with_entry-AreClosedIfAny k none os h hs = tt
with_entry-AreClosedIfAny k (some t) none h hs = tt
with_entry-AreClosedIfAny k (some t) (some es) h hs = (h, hs)

module _ (float_text : ℕ → Option String)
    (floats_closed : (bits : ℕ) → IsClosedIfAny (float_text bits)) where
  print_value-IsClosed : (v : Value) → IsClosedIfAny (print_value float_text v)
  unfolding print_value last_is
  print_value-IsClosed null = refl
  print_value-IsClosed (boolean true) = refl
  print_value-IsClosed (boolean false) = refl
  print_value-IsClosed (int n) = int_text-IsClosed n
  print_value-IsClosed (float bits) = floats_closed bits
  print_value-IsClosed (str s) = quote-IsClosed s
  print_value-IsClosed (arr xs) = array-IsClosedIfAny (print_items float_text xs)
  print_value-IsClosed (maps xs) = array-IsClosedIfAny (print_items float_text xs)
  print_value-IsClosed (obj fs) = object-IsClosedIfAny (print_fields float_text fs)

  pub print_fields-AreClosed : (fs : Fields) → AreClosedIfAny (print_fields float_text fs)
  unfolding print_fields
  print_fields-AreClosed end = tt
  print_fields-AreClosed (field k v fs) =
      with_entry-AreClosedIfAny k (print_value float_text v) (print_fields float_text fs)
        (print_value-IsClosed v) (print_fields-AreClosed fs)

insert_entry-AreClosed :
    (e : Entry) (es : List Entry)
    → IsClosedEntry e
    → All IsClosedEntry es
    → All IsClosedEntry (insert_entry e es)
unfolding insert_entry
insert_entry-AreClosed e [] h hs = (h, tt)
insert_entry-AreClosed e (f ∷ fs) h hs = ground (arith, h, hs, insert_entry-AreClosed e fs h hs.1)

pub sort_entries-AreClosed :
    (es : List Entry) → All IsClosedEntry es → All IsClosedEntry (sort_entries es)
unfolding sort_entries
sort_entries-AreClosed [] h = tt
sort_entries-AreClosed (e ∷ es) h =
    insert_entry-AreClosed e (sort_entries es) h.0 (sort_entries-AreClosed es h.1)
