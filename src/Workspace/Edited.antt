-- ===== src/Workspace/Edited.antt =====
-- What the edit tool of tools/workspace/filesystem.go does to the files.
use std.Path.{subst}
use exoclaw_go.Prelude.{
  arith, true, ◌≡◌, refl, String, false, Option, none, some, if-ind, str_eq, eq_refl, ap, ◌∙◌,
}
use exoclaw_go.Prelude.Text.{◌<>◌, is_empty, contains}
use exoclaw_go.Json.{Fields, get, str_of}
use exoclaw_go.Workspace.Segments.{find_split, IsAround, find_split-IsAround}
use exoclaw_go.Workspace.Paths.{FilePath, resolve_path}
use exoclaw_go.Workspace.Files.{
  Files, path_text, Outcome, written, failed, WriteFailure, put_outcome, FileTool, appears_again,
  write_to, edit_around, edit_content, edit_at, edit_file,
}

-- `old` has no place in what follows a found one; the empty text, which is everywhere, is only in
-- the empty file alone.
abbrev pub IsUnique : String → String → String → Type 0
IsUnique old content after =
    (is_empty old ≡ false → contains old after ≡ false)
    × (is_empty old ≡ true → is_empty content ≡ true)

abbrev pub OthersKept : String → Files → Files → Type 0
OthersKept at files files' = (other : String) → str_eq other at ≡ false → files' other ≡ files other

-- Where a file was written, one place of `old` in it, which had no other behind it, has become `new`,
-- and all other files are as they were. A write that failed may have changed the file under its path
-- only, and any other answer has changed none.
abbrev pub IsEdit : String → String → Files → Outcome × Files → Type 0
IsEdit old new files (written at, files') =
    ((before : String) × (after : String) × (files at ≡ some (before <> (old <> after)))
      × IsUnique old (before <> (old <> after)) after
      × (files' at ≡ some (before <> (new <> after))))
    × OthersKept at files files'
IsEdit old new files (failed at, files') = OthersKept at files files'
IsEdit old new files (_, files') = files' ≡ files

appears_again-IsUnique :
    (old content after : String)
    → appears_again old content after ≡ false
    → IsUnique old content after
unfolding appears_again
appears_again-IsUnique old content after h =
    ((λ e. ground (arith, h, e)), λ e. ground (arith, h, e))

module _ (eval_symlinks : FilePath → Option FilePath) (cannot_write : WriteFailure) where
  put_outcome-IsEdit :
      (at old new before after : String) (files : Files) (o : Option (Option String))
      → files at ≡ some (before <> (old <> after))
      → IsUnique old (before <> (old <> after)) after
      → IsEdit old new files
          (put_outcome eval_symlinks cannot_write at (before <> (new <> after)) files o)
  put_outcome-IsEdit at old new before after files none h u =
      ((before, after, h, u, rw (eq_refl at) refl), λ other ne. rw ne refl)
  put_outcome-IsEdit at old new before after files (some left) h u = λ other ne. rw ne refl

  edit_around-IsEdit :
      (at old new content : String) (files : Files) (o : Option (String × String))
      → files at ≡ some content
      → IsAround old content o
      → IsEdit old new files (edit_around eval_symlinks cannot_write at old new content files o)
  unfolding write_to
  edit_around-IsEdit at old new content files none h i = refl
  edit_around-IsEdit at old new content files (some (before, after)) h i =
      if-ind (IsEdit old new files) (appears_again old content after) _ _ (λ _. refl)
        (λ once. put_outcome-IsEdit at old new before after files _ (h ∙ ap some i) (
          subst (λ text. IsUnique old text after) i
            (appears_again-IsUnique old content after once)))

  edit_content-IsEdit :
      (at old new : String) (files : Files) (o : Option String)
      → files at ≡ o
      → IsEdit old new files (edit_content eval_symlinks cannot_write at old new files o)
  edit_content-IsEdit at old new files none h = refl
  edit_content-IsEdit at old new files (some content) h =
      edit_around-IsEdit at old new content files (find_split old content) h
        (find_split-IsAround old content)

  edit_at-IsEdit :
      (old new : String) (files : Files) (o : Option FilePath)
      → IsEdit old new files (edit_at eval_symlinks cannot_write old new files o)
  edit_at-IsEdit old new files none = refl
  edit_at-IsEdit old new files (some p) =
      edit_content-IsEdit (path_text p) old new files (files (path_text p)) refl

  -- Where the edit tool says that it wrote a file, a place of old_text in that file, behind which the
  -- rest of the file had no other, has become new_text, and every other file is as it was. An empty
  -- old_text was taken only for an empty file. Where the write failed, every file but the one that
  -- was to be written is as it was, and with any other answer all files are.
  pub edit_file-IsEdit :
      (t : FileTool) (params : Fields) (files : Files)
      → IsEdit
          (str_of (get "old_text" params))
          (str_of (get "new_text" params))
          files
          (edit_file eval_symlinks cannot_write t params files)
  unfolding edit_file
  edit_file-IsEdit t params files =
      edit_at-IsEdit (str_of (get "old_text" params)) (str_of (get "new_text" params)) files
        (resolve_path eval_symlinks (str_of (get "path" params)) t.workspace t.allowed_dir)
