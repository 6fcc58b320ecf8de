-- ===== src/Session/Pairing.antt =====
-- RepairAndProject of conversation-file/session/manager.go pairs calls with results.
use exoclaw_go.Prelude.{
  ◌≡◌, refl, ap₂, String, Bool, false, ◌&&◌, List, [], ◌∷◌, map, str_eq, arith, any, Bool-cases,
  inl, inr,
}
use exoclaw_go.Prelude.Text.{is_empty}
use exoclaw_go.Json.{Fields, str_of, items_of}
use exoclaw_go.Session.Ids.{has, has-both}
use exoclaw_go.Session.Repair.{
  declared_ids, responded_ids, project_message, valid_ids, differs, repaired, repair_and_project,
}
use exoclaw_go.Session.Scan.{
  calls_have, declares, responds, has-none, same_ids, has-declared_ids, has-responded_ids,
}
use exoclaw_go.Session.Mend.{any-repair_message, any-responds-repair_message, any-repair}
use exoclaw_go.Session.Project.{role-project_message, calls-project_message, id-project_message}

module _ (id : String) (proper : is_empty id ≡ false) where
  any-project_message :
      (p : Fields → Bool)
      → ((m : Fields) → p (project_message m) ≡ p m)
      → (ms : List Fields) → any p (map project_message ms) ≡ any p ms
  any-project_message p each [] = refl
  any-project_message p each (m ∷ ms) = ground (arith, each m, any-project_message p each ms)

  declares-project_message : (m : Fields) → declares id (project_message m) ≡ declares id m
  unfolding declares
  declares-project_message m =
      ap₂ (λ r t. str_eq r "assistant" && calls_have id (items_of t)) (role-project_message m)
        (calls-project_message m)

  responds-project_message : (m : Fields) → responds id (project_message m) ≡ responds id m
  unfolding responds
  responds-project_message m =
      ap₂ (λ r t. str_eq r "tool" && str_eq (str_of t) id) (role-project_message m)
        (id-project_message m)

  has-valid_ids :
      (ms : List Fields)
      → has id (valid_ids ms) ≡ (has id (declared_ids ms []) && has id (responded_ids ms []))
  unfolding valid_ids
  has-valid_ids ms = has-both id (declared_ids ms []) (responded_ids ms [])

  -- An id is left as often as it was in both sets, on either side.
  any-repaired :
      (ms : List Fields)
      → let common = has id (declared_ids ms []) && has id (responded_ids ms []) in
        (any (declares id) (repaired ms) ≡ common) × (any (responds id) (repaired ms) ≡ common)
  unfolding repaired
  any-repaired ms = elim (Bool-cases (differs ms)) [
    | inl d ↦ rw d (
        ground (
          arith,
          any-repair id proper (declares id) (valid_ids ms)
              (any-repair_message id proper (valid_ids ms)) ms,
          any-repair id proper (responds id) (valid_ids ms)
              (any-responds-repair_message id proper (valid_ids ms)) ms,
          has-valid_ids ms,
          has-declared_ids id proper ms [],
          has-responded_ids id proper ms [],
          has-none id,
        ))
    | inr d ↦ rw d (
        ground (
          arith,
          same_ids id ms d,
          has-declared_ids id proper ms [],
          has-responded_ids id proper ms [],
          has-none id,
        ))
  ]

-- What the model gets is paired, and no pair is lost: an id that is not empty has a call in it if
-- and only if it has a result in it, which is when the history had both a call and a result for it.
pub repair_and_project-paired :
    (ms : List Fields) (id : String)
    → is_empty id ≡ false
    → let out = repair_and_project ms in
      let common = has id (declared_ids ms []) && has id (responded_ids ms []) in
      (has id (declared_ids out []) ≡ common) × (has id (responded_ids out []) ≡ common)
unfolding repair_and_project
repair_and_project-paired ms id proper = ground (
  arith,
  has-none id,
  has-declared_ids id proper (map project_message (repaired ms)) [],
  has-responded_ids id proper (map project_message (repaired ms)) [],
  any-project_message id proper (declares id) (declares-project_message id proper) (repaired ms),
  any-project_message id proper (responds id) (responds-project_message id proper) (repaired ms),
  any-repaired id proper ms,
)
