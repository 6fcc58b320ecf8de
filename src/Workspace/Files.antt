-- ===== src/Workspace/Files.antt =====
-- WriteFileTool and EditFileTool of tools/workspace/filesystem.go. A file is its text under its path;
-- `cannot_write` stands for MkdirAll and os.WriteFile: `none` where they succeed, and else what they
-- leave under the path, which may be any part of the text or what was there before. The text of an
-- answer is left out.
use exoclaw_go.Prelude.{String, Bool, not, Option, none, some, if◌then◌else◌, str_eq}
use exoclaw_go.Prelude.Text.{◌<>◌, is_empty, contains}
use exoclaw_go.Json.{Fields, get, str_of}
use exoclaw_go.Tools.Registry.{join}
use exoclaw_go.Workspace.Segments.{find_split}
use exoclaw_go.Workspace.Paths.{FilePath, resolve_path}

abbrev pub Files : Type 0
Files = String → Option String

unfoldable pub path_text : FilePath → String
path_text p = (if p.is_absolute then "/" else "") <> join "/" p.parts

-- What a tool answers: an error or a warning, or the path that it wrote or failed to.
pub data Outcome : Type 0 where
  refused missing not_found ambiguous : Outcome
  written failed : String → Outcome

-- A tool with its Workspace and AllowedDir.
pub record FileTool : Type 0 where
  pub workspace : String
  pub allowed_dir : String

abbrev pub set_file : String → Option String → Files → Files
set_file at content files k = if str_eq k at then content else files k

-- `strings.Count(content, old) > 1`, for a text with `old` in front of `after`.
unfoldable pub appears_again : String → String → String → Bool
appears_again old content after =
    if is_empty old then not (is_empty content) else contains old after

-- Path, old content and new content to what a failure leaves.
abbrev pub WriteFailure : Type 0
WriteFailure = String → Option String → String → Option (Option String)

module _ (eval_symlinks : FilePath → Option FilePath) (cannot_write : WriteFailure) where
  abbrev pub put_outcome : String → String → Files → Option (Option String) → Outcome × Files
  put_outcome at content files none = (written at, set_file at (some content) files)
  put_outcome at content files (some left) = (failed at, set_file at left files)

  unfoldable pub write_to : String → String → Files → Outcome × Files
  write_to at content files = put_outcome at content files (cannot_write at (files at) content)

  abbrev pub edit_around :
      String → String → String → String → Files → Option (String × String) → Outcome × Files
  edit_around at old new content files none = (not_found, files)
  edit_around at old new content files (some (before, after)) =
      if appears_again old content after
      then (ambiguous, files)
      else write_to at (before <> (new <> after)) files

  abbrev pub edit_content : String → String → String → Files → Option String → Outcome × Files
  edit_content at old new files none = (missing, files)
  edit_content at old new files (some content) =
      edit_around at old new content files (find_split old content)

  abbrev pub edit_at : String → String → Files → Option FilePath → Outcome × Files
  edit_at old new files none = (refused, files)
  edit_at old new files (some p) = edit_content (path_text p) old new files (files (path_text p))

  -- Execute of EditFileTool
  unfoldable pub edit_file : FileTool → Fields → Files → Outcome × Files
  edit_file t params files =
      edit_at (str_of (get "old_text" params)) (str_of (get "new_text" params)) files
        (resolve_path eval_symlinks (str_of (get "path" params)) t.workspace t.allowed_dir)

  abbrev pub write_at : String → Files → Option FilePath → Outcome × Files
  write_at content files none = (refused, files)
  write_at content files (some p) = write_to (path_text p) content files

  -- Execute of WriteFileTool
  unfoldable pub write_file : FileTool → Fields → Files → Outcome × Files
  write_file t params files =
      write_at (str_of (get "content" params)) files
        (resolve_path eval_symlinks (str_of (get "path" params)) t.workspace t.allowed_dir)
