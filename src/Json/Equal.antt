-- ===== src/Json/Equal.antt =====
-- A structural comparison of values, which tells any two values apart that were built differently.
use exoclaw_go.Prelude.{
  ◌≡◌, refl, Bool, true, false, ◌&&◌, ◌==◌, str_eq, eq_refl, if◌then◌else◌, ==_iff,
}
use exoclaw_go.Json.{
  Value, Items, Fields, null, boolean, int, float, str, arr, maps, obj, nil, cons, end, field,
}

abbrev same_bool : Bool → Bool → Bool
same_bool true b = b
same_bool false b = if b then false else true

same_bool_refl : (b : Bool) → same_bool b b ≡ true
same_bool_refl true = refl
same_bool_refl false = refl

unfoldable mutual
  pub same_value : Value → Value → Bool
  same_value null null = true
  same_value (boolean a) (boolean b) = same_bool a b
  same_value (int a) (int b) = a == b
  same_value (float a) (float b) = a == b
  same_value (str a) (str b) = str_eq a b
  same_value (arr a) (arr b) = same_items a b
  same_value (maps a) (maps b) = same_items a b
  same_value (obj a) (obj b) = same_fields a b
  same_value _ _ = false

  pub same_items : Items → Items → Bool
  same_items nil nil = true
  same_items (cons a as') (cons b bs) = same_value a b && same_items as' bs
  same_items _ _ = false

  pub same_fields : Fields → Fields → Bool
  same_fields end end = true
  same_fields (field j a fs) (field k b gs) = str_eq j k && same_value a b && same_fields fs gs
  same_fields _ _ = false

mutual
  unfolding same_value same_items same_fields

  same_value_refl : (a : Value) → same_value a a ≡ true
  same_value_refl null = refl
  same_value_refl (boolean b) = same_bool_refl b
  same_value_refl (int n) = (==_iff n n).1 refl
  same_value_refl (float n) = (==_iff n n).1 refl
  same_value_refl (str t) = eq_refl t
  same_value_refl (arr xs) = same_items_refl xs
  same_value_refl (maps xs) = same_items_refl xs
  same_value_refl (obj fs) = lemma fs

  same_items_refl : (xs : Items) → same_items xs xs ≡ true
  same_items_refl nil = refl
  same_items_refl (cons x xs) = rw (same_value_refl x) (same_items_refl xs)

  lemma : (fs : Fields) → same_fields fs fs ≡ true
  lemma end = refl
  lemma (field k v fs) = rw (eq_refl k, same_value_refl v) (lemma fs)

pub same_fields_refl : (fs : Fields) → same_fields fs fs ≡ true
same_fields_refl fs = lemma fs
