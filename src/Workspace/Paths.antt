-- ===== src/Workspace/Paths.antt =====
-- resolvePath and resolveExistingAncestor of tools/workspace/filesystem.go, on Unix. `eval_symlinks` is
-- filepath.EvalSymlinks, which asks the file system.
use exoclaw_go.Prelude.{
  String, Bool, true, false, not, ◌&&◌, ◌||◌, Option, none, some, List, [], ◌∷◌, ◌++◌, any,
  if◌then◌else◌, str_eq, when_set,
}
use exoclaw_go.Prelude.Text.{◌<>◌, is_empty, has_prefix}
use exoclaw_go.Workspace.Segments.{split_slashes, cut_prefix, starts_with_slash}

-- A path by its segments; the one with none is "/" or ".".
pub record FilePath : Type 0 where
  pub is_absolute : Bool
  pub parts : List String

unfoldable pub parse_path : String → FilePath
parse_path s = record { is_absolute = starts_with_slash s; parts = split_slashes false s }

-- `..` drops the last of the segments, which come in reverse order, unless there is none to drop.
unfoldable pub go_up : Bool → List String → List String
go_up absolute [] = if absolute then [] else ".." ∷ []
go_up absolute (p ∷ ps) = if str_eq p ".." then ".." ∷ p ∷ ps else ps

unfoldable pub clean_onto : Bool → List String → List String → List String
clean_onto absolute done [] = done
clean_onto absolute done (p ∷ ps) =
    let same = clean_onto absolute done ps in
    let up = clean_onto absolute (go_up absolute done) ps in
    let down = clean_onto absolute (p ∷ done) ps in
    if is_empty p || str_eq p "." then same else if str_eq p ".." then up else down

unfoldable pub reverse_onto : List String → List String → List String
reverse_onto done [] = done
reverse_onto done (p ∷ ps) = reverse_onto (p ∷ done) ps

-- filepath.Clean, with the segments in reverse order and in their own.
abbrev pub clean_reversed : FilePath → List String
clean_reversed p = clean_onto p.is_absolute [] p.parts

unfoldable pub clean_path : FilePath → FilePath
clean_path p = record p { parts = reverse_onto [] (clean_reversed p) }

-- filepath.Join(p, q...)
unfoldable pub join_path : FilePath → List String → FilePath
join_path p ps = clean_path (record p { parts = p.parts ++ ps })

abbrev base_segments : List String → String
base_segments [] = "/"
base_segments (p ∷ ps) = p

abbrev first_full : List String → List String → List String
first_full [] found = found
first_full (p ∷ ps) found = first_full ps (if is_empty p then found else p ∷ [])

-- filepath.Base of a path that is not empty: its last segment that is not empty.
unfoldable pub base_of : String → String
base_of s = base_segments (first_full (split_slashes false s) [])

-- A leading workspace name is stripped.
unfoldable pub strip_workspace : String → String → String
strip_workspace workspace path =
    if is_empty workspace
    then path
    else when_set (cut_prefix (base_of workspace <> "/") path)
        (if str_eq path (base_of workspace) then "." else path) (λ rest. rest)

unfoldable pub has_dots : String → Bool
has_dots path = any (λ seg. str_eq seg "..") (split_slashes true path)

-- The `..` of filepath.Rel, one for each segment of the base that is left.
unfoldable pub ups : List String → List String → Option (List String)
ups [] rest = some rest
ups (b ∷ bs) rest =
    if str_eq b ".." then none else when_set (ups bs rest) none (λ r. some (".." ∷ r))

unfoldable pub rel_parts : List String → List String → Option (List String)
rel_parts [] ts = some ts
rel_parts (b ∷ bs) [] = ups (b ∷ bs) []
rel_parts (b ∷ bs) (t ∷ ts) =
    let inner = rel_parts bs ts in if str_eq b t then inner else ups (b ∷ bs) (t ∷ ts)

abbrev pub same_kind : Bool → Bool → Bool
same_kind true b = b
same_kind false b = not b

-- filepath.Rel, and none where it fails.
unfoldable pub rel : FilePath → FilePath → Option (List String)
rel base target =
    if same_kind base.is_absolute target.is_absolute
    then rel_parts (clean_path base).parts (clean_path target).parts
    else none

abbrev pub goes_up : List String → Bool
goes_up [] = false
goes_up (p ∷ ps) = has_prefix ".." p

abbrev pub is_outside : Option (List String) → Bool
is_outside none = true
is_outside (some r) = goes_up r

module _ (eval_symlinks : FilePath → Option FilePath) where
  abbrev pub at_parts : FilePath → List String → FilePath
  at_parts p reversed = record p { parts = reverse_onto [] reversed }

  abbrev pub or_joined : Option FilePath → List String → FilePath → FilePath
  or_joined none suffix rest = rest
  or_joined (some r) suffix rest = join_path r suffix

  -- The loop over the parents, with the segments of the path in reverse order.
  unfoldable pub walk_up : FilePath → List String → List String → FilePath
  walk_up p [] suffix = at_parts p []
  walk_up p (base ∷ parents) suffix =
      or_joined (eval_symlinks (at_parts p parents)) (base ∷ suffix)
        (walk_up p parents (base ∷ suffix))

  abbrev pub or_walk : Option FilePath → FilePath → FilePath
  or_walk (some r) p = r
  or_walk none p = walk_up p (clean_reversed p) []

  unfoldable pub resolve_existing_ancestor : FilePath → FilePath
  resolve_existing_ancestor p = or_walk (eval_symlinks p) p

  abbrev pub located : String → String → FilePath
  located path workspace =
      if not (starts_with_slash path) && not (is_empty workspace)
      then join_path (parse_path workspace) (split_slashes false path)
      else parse_path path

  abbrev pub sandbox_of : String → String → String
  sandbox_of workspace allowed_dir = if is_empty allowed_dir then workspace else allowed_dir

  abbrev pub checked : String → FilePath → Option FilePath
  checked sandbox resolved =
      if is_empty sandbox
      then some resolved
      else if is_outside (rel (resolve_existing_ancestor (parse_path sandbox)) resolved)
      then none
      else some resolved

  -- resolvePath: none is an error.
  unfoldable pub resolve_path : String → String → String → Option FilePath
  resolve_path path workspace allowed_dir =
      let resolved =
        resolve_existing_ancestor (located (strip_workspace workspace path) workspace) in
      if has_dots path then none else checked (sandbox_of workspace allowed_dir) resolved
