-- ===== src/Json/Lookup.antt =====
-- What a lookup finds in a map after `m[k] = v` and after `delete(m, k)`.
use exoclaw_go.Prelude.{◌≡◌, refl, String, false, none, some, str_eq, eq_iff, eq_refl, arith}
use exoclaw_go.Json.{Value, Fields, end, field, get, put, delete}

pub get-put : (k : String) (v : Value) (m : Fields) → get k (put k v m) ≡ some v
unfolding get put
get-put k v end = ground (arith, eq_refl k)
get-put k v (field j u m) = ground (arith, eq_refl k, get-put k v m)

pub get-put_ne :
    (k other : String) (v : Value) (m : Fields)
    → str_eq k other ≡ false
    → get other (put k v m) ≡ get other m
unfolding get put
get-put_ne k other v end h = ground arith
get-put_ne k other v (field j u m) h =
    ground (arith, h, eq_iff j k, eq_iff j other, eq_iff k other, get-put_ne k other v m h)

pub get-delete : (k : String) (m : Fields) → get k (delete k m) ≡ none
unfolding get delete
get-delete k end = refl
get-delete k (field j u m) = ground (arith, get-delete k m)

pub get-delete_ne :
    (k other : String) (m : Fields) → str_eq k other ≡ false → get other (delete k m) ≡ get other m
unfolding get delete
get-delete_ne k other end h = refl
get-delete_ne k other (field j u m) h =
    ground (arith, h, eq_iff j k, eq_iff j other, eq_iff k other, get-delete_ne k other m h)
