-- ===== src/Workspace/Examples.antt =====
-- Paths in a workspace.
use exoclaw_go.Prelude.{
  All, ◌≡◌, refl, String, true, false, Option, none, some, List, [], ◌∷◌, if◌then◌else◌, str_eq,
}
use exoclaw_go.Prelude.Text.{has_prefix, contains}
use exoclaw_go.Workspace.Segments.{split_slashes, cut_prefix, starts_with_slash}
use exoclaw_go.Json.{Fields, end, field, str, get}
use exoclaw_go.Tools.Registry.{join}
use exoclaw_go.Workspace.Segments.{find_split}
use exoclaw_go.Workspace.Files.{Files, written, path_text, appears_again, write_to, edit_file}
use exoclaw_go.Workspace.Edited.{IsEdit, edit_file-IsEdit}
use exoclaw_go.Workspace.Paths.{
  FilePath, parse_path, clean_onto, reverse_onto, clean_path, join_path, base_of, strip_workspace,
  has_dots, ups, rel_parts, rel, walk_up, located, resolve_existing_ancestor, resolve_path,
}
use exoclaw_go.Workspace.Sandbox.{IsDown, LeadsTo, LiesIn, resolve_path-LiesIn}

abbrev absolute : List String → FilePath
absolute parts = record { is_absolute = true; parts = parts }

abbrev last_is_link : List String → Option FilePath
last_is_link [] = some (absolute [])
last_is_link (p ∷ []) = if str_eq p "ws" then some (absolute ("ws" ∷ [])) else none
last_is_link (p ∷ q ∷ []) = if str_eq q "link" then some (absolute ("etc" ∷ [])) else none
last_is_link _ = none

-- A file system with /ws, and /ws/link, which leads to /etc.
abbrev eval_symlinks : FilePath → Option FilePath
eval_symlinks p = last_is_link (clean_path p).parts

new_file_example :
    resolve_path eval_symlinks "ws/notes/today.md" "/ws" ""
    ≡ some (absolute ("ws" ∷ "notes" ∷ "today.md" ∷ []))
unfolding parse_path clean_onto clean_path reverse_onto join_path base_of strip_workspace has_dots
    rel rel_parts walk_up resolve_existing_ancestor resolve_path split_slashes cut_prefix
    starts_with_slash has_prefix
new_file_example = refl

link_example : resolve_path eval_symlinks "link/passwd" "/ws" "" ≡ none
unfolding parse_path clean_onto clean_path reverse_onto join_path base_of strip_workspace has_dots
    rel rel_parts ups walk_up resolve_existing_ancestor resolve_path split_slashes cut_prefix
    starts_with_slash has_prefix
link_example = refl

resolve_path-LiesIn_example :
    let p = absolute ("ws" ∷ "notes" ∷ "today.md" ∷ []) in
    All IsDown (split_slashes true "ws/notes/today.md")
    × LeadsTo eval_symlinks
        (located eval_symlinks (strip_workspace "/ws" "ws/notes/today.md") "/ws")
        p
    × ((dir : FilePath) × LeadsTo eval_symlinks (parse_path "/ws") dir × LiesIn dir p)
resolve_path-LiesIn_example =
    resolve_path-LiesIn eval_symlinks "ws/notes/today.md" "/ws" ""
      (absolute ("ws" ∷ "notes" ∷ "today.md" ∷ [])) refl new_file_example

abbrev edits : Fields
edits =
    field "path" (str "notes/today.md")
      (field "old_text" (str "tea") (field "new_text" (str "coffee") end))

abbrev files : Files
files path = if str_eq path "/ws/notes/today.md" then some "buy tea" else none

edit_file-IsEdit_example : IsEdit "tea" "coffee" files (
    edit_file eval_symlinks
      (λ path old new. none)
      (record { workspace = "/ws"; allowed_dir = "" })
      edits
      files)
unfolding get
edit_file-IsEdit_example =
    edit_file-IsEdit eval_symlinks (λ path old new. none)
      (record { workspace = "/ws"; allowed_dir = "" }) edits files

edited_example :
    (edit_file eval_symlinks
      (λ path old new. none)
      (record { workspace = "/ws"; allowed_dir = "" })
      edits
      files).0
    ≡ written "/ws/notes/today.md"
unfolding get parse_path clean_onto clean_path reverse_onto join_path base_of strip_workspace
    has_dots rel rel_parts walk_up resolve_existing_ancestor resolve_path split_slashes cut_prefix
    starts_with_slash has_prefix edit_file write_to path_text find_split appears_again contains join
edited_example = refl

-- Occurrences that overlap count as one.
overlapping_example : appears_again "aa" "aaa" "a" ≡ false
unfolding appears_again contains has_prefix
overlapping_example = refl
