-- ===== src/Session/Ids.antt =====
-- The sets of ids in conversation-file/session/manager.go: map[string]struct{} as a list without
-- repetition.
use exoclaw_go.Prelude.{
  ◌≤◌, ◌<◌, ◌≡◌, refl, String, Bool, true, false, not, ◌&&◌, List, [], ◌∷◌, if◌then◌else◌, str_eq,
  eq_iff, eq_refl, arith, length, keep, length-keep-le,
}

abbrev pub Ids : Type 0
Ids = List String

unfoldable pub has : String → Ids → Bool
has id [] = false
has id (x ∷ xs) = let rest = has id xs in if str_eq x id then true else rest

-- `set[id] = struct{}{}`
unfoldable pub add : String → Ids → Ids
add id xs = if has id xs then xs else id ∷ xs

-- The members that the other set has too.
unfoldable pub both : Ids → Ids → Ids
both xs ys = keep (λ x. has x ys) xs

pub has-add :
    (id other : String) (xs : Ids)
    → has other (add id xs) ≡ (if str_eq id other then true else has other xs)
unfolding add has
has-add id other xs = ground (arith, eq_iff id other)

abbrev pub IsDistinct : Ids → Type 0
IsDistinct [] = Unit
IsDistinct (x ∷ xs) = (has x xs ≡ false) × IsDistinct xs

pub add-IsDistinct : (id : String) (xs : Ids) → IsDistinct xs → IsDistinct (add id xs)
unfolding add
add-IsDistinct id xs d = ground arith

has-keep : (p : String → Bool) (id : String) (xs : Ids) → has id (keep p xs) ≡ (has id xs && p id)
unfolding has
has-keep p id [] = refl
has-keep p id (x ∷ xs) = ground (arith, eq_iff x id, has-keep p id xs)

pub has-both : (id : String) (xs ys : Ids) → has id (both xs ys) ≡ (has id xs && has id ys)
unfolding both
has-both id xs ys = has-keep (λ x. has x ys) id xs

keep-IsDistinct : (p : String → Bool) (xs : Ids) → IsDistinct xs → IsDistinct (keep p xs)
keep-IsDistinct p [] d = tt
keep-IsDistinct p (x ∷ xs) d = ground (arith, has-keep p x xs, keep-IsDistinct p xs d.1)

-- A set that lies within another has no more members.
abbrev Within : Ids → Ids → Type 0
Within xs ys = (id : String) → has id xs ≡ true → has id ys ≡ true

without : String → Ids → Ids
without id xs = keep (λ x. not (str_eq x id)) xs

length-without : (id : String) (xs : Ids) → has id xs ≡ true → length (without id xs) < length xs
unfolding has without
length-without id [] h = absurd (ground arith)
length-without id (x ∷ xs) h =
    ground (arith, length-without id xs, length-keep-le (λ y. not (str_eq y id)) xs)

length-Within : (xs ys : Ids) → IsDistinct xs → Within xs ys → length xs ≤ length ys
unfolding has without
length-Within [] ys d w = omega arith
length-Within (x ∷ xs) ys d w =
    let smaller : length (without x ys) < length ys =
      length-without x ys (w x (ground (arith, eq_refl x))) in
    let inside : Within xs (without x ys) = λ id h.
      ground
        (arith, d.0, h, w id, has-keep (λ y. not (str_eq y x)) id ys, eq_iff x id, eq_iff id x) in
    omega (arith, smaller, length-Within xs (without x ys) d.1 inside)

keep-all :
    (p : String → Bool) (xs : Ids) (id : String)
    → length (keep p xs) ≡ length xs
    → has id xs ≡ true
    → p id ≡ true
unfolding has
keep-all p [] id l h = absurd (ground arith)
keep-all p (x ∷ xs) id l h = ground (arith, length-keep-le p xs, keep-all p xs id, eq_iff x id)

-- Where the set of common members is as large as both sets, the two have the same members.
pub both-same :
    (xs ys : Ids) (id : String)
    → IsDistinct xs
    → length xs ≡ length (both xs ys)
    → length ys ≡ length (both xs ys)
    → has id xs ≡ has id ys
unfolding both
both-same xs ys id d h k =
    let common = both xs ys in
    let inside : Within common (keep (λ y. has y common) ys) =
      λ x m. ground (arith, m, has-keep (λ y. has y common) x ys, has-both x xs ys) in
    let le =
      length-Within common (keep (λ y. has y common) ys) (keep-IsDistinct (λ x. has x ys) xs d)
        inside in
    ground (
      arith,
      keep-all (λ x. has x ys) xs id,
      keep-all (λ y. has y common) ys id (omega (arith, le, length-keep-le (λ y. has y common) ys)),
      has-both id xs ys,
    )
