-- ===== src/Workspace/Sandbox.antt =====
-- What resolvePath of tools/workspace/filesystem.go lets through.
use std.Path.{subst}
use exoclaw_go.Workspace.Segments.{split_slashes}
use exoclaw_go.Prelude.{
  ap, ◌∙◌, append_assoc, any, none, ◌⊎◌, String, ◌≡◌, refl, sym, true, false, ◌||◌, Option, some,
  List, [], ◌∷◌, ◌++◌, All, if-ind, str_eq, eq_iff, when_set-ind, ap₂, arith, Bool-cases, inl, inr,
}
use exoclaw_go.Prelude.Text.{is_empty, has_prefix}
use exoclaw_go.Workspace.Paths.{
  FilePath, parse_path, go_up, clean_onto, reverse_onto, clean_reversed, clean_path,
  strip_workspace, ups, rel_parts, same_kind, rel, is_outside, resolve_existing_ancestor, walk_up,
  at_parts, or_joined, or_walk, join_path, has_dots, located, sandbox_of, checked, resolve_path,
}

-- A segment that is not `..`.
abbrev pub IsDown : String → Type 0
IsDown p = str_eq p ".." ≡ false

go_up-IsDown : (done : List String) → All IsDown done → All IsDown (go_up true done)
unfolding go_up
go_up-IsDown [] h = tt
go_up-IsDown (p ∷ ps) h = rw h.0 h.1

clean_onto-IsDown : (ps done : List String) → All IsDown done → All IsDown (clean_onto true done ps)
unfolding clean_onto
clean_onto-IsDown [] done h = h
clean_onto-IsDown (p ∷ ps) done h =
    if-ind (All IsDown) (is_empty p || str_eq p ".") _ _ (λ _. clean_onto-IsDown ps done h)
      (λ _.
        if-ind (All IsDown) (str_eq p "..") _ _
          (λ _. clean_onto-IsDown ps (go_up true done) (go_up-IsDown done h))
          (λ e. clean_onto-IsDown ps (p ∷ done) (e, h)))

reverse_onto-IsDown :
    (ps done : List String) → All IsDown done → All IsDown ps → All IsDown (reverse_onto done ps)
unfolding reverse_onto
reverse_onto-IsDown [] done h hs = h
reverse_onto-IsDown (p ∷ ps) done h hs = reverse_onto-IsDown ps (p ∷ done) (hs.0, h) hs.1

clean_path-IsDown : (p : FilePath) → p.is_absolute ≡ true → All IsDown (clean_path p).parts
unfolding clean_path
clean_path-IsDown p h =
    reverse_onto-IsDown (clean_reversed p) [] tt (rw h (clean_onto-IsDown p.parts [] tt))

ups-goes_up : (b : String) (bs ts : List String) → is_outside (ups (b ∷ bs) ts) ≡ true
unfolding ups has_prefix
ups-goes_up b bs ts =
    if-ind (λ (o : Option (List String)). is_outside o ≡ true) (str_eq b "..") _ _ (λ _. refl)
      (λ _.
        when_set-ind (λ (o : Option (List String)). is_outside o ≡ true) (ups bs ts) _ _ refl
          (λ r. refl))

rel_parts-append :
    (bs ts : List String)
    → is_outside (rel_parts bs ts) ≡ false
    → (rest : List String) × (ts ≡ bs ++ rest)
unfolding rel_parts
rel_parts-append [] ts h = (ts, refl)
rel_parts-append (b ∷ bs) [] h = absurd (ground (arith, h, ups-goes_up b bs []))
rel_parts-append (b ∷ bs) (t ∷ ts) h = elim (Bool-cases (str_eq b t)) [
  | inl e ↦
      let (rest, below) = rel_parts-append bs ts (ground (arith, h, e)) in
      (rest, ap₂ (λ p ps. p ∷ ps) (sym ((eq_iff b t).0 e)) below)
  | inr ne ↦ absurd (ground (arith, h, ne, ups-goes_up b bs (t ∷ ts)))
]

-- A path lies in a directory: in clean form, it has the directory's segments and then others, and no
-- segment of an absolute path is `..`.
abbrev pub LiesIn : FilePath → FilePath → Type 0
LiesIn dir p =
    ((rest : List String) × ((clean_path p).parts ≡ (clean_path dir).parts ++ rest))
    × (p.is_absolute ≡ true → All IsDown (clean_path p).parts)
    × (same_kind dir.is_absolute p.is_absolute ≡ true)

rel-LiesIn : (dir p : FilePath) → is_outside (rel dir p) ≡ false → LiesIn dir p
unfolding rel
rel-LiesIn dir p h = elim (Bool-cases (same_kind dir.is_absolute p.is_absolute)) [
  | inl e ↦ (
    rel_parts-append (clean_path dir).parts (clean_path p).parts (ground (arith, h, e)),
    clean_path-IsDown p,
    e,
  )
  | inr ne ↦ absurd (ground (arith, h, ne))
]

any-IsDown : (ps : List String) → any (λ seg. str_eq seg "..") ps ≡ false → All IsDown ps
any-IsDown [] h = tt
any-IsDown (p ∷ ps) h = (ground (arith, h), any-IsDown ps (ground (arith, h)))

reverse_onto-append : (ps done : List String) → reverse_onto done ps ≡ reverse_onto [] ps ++ done
unfolding reverse_onto
reverse_onto-append [] done = refl
reverse_onto-append (p ∷ ps) done =
    reverse_onto-append ps (p ∷ done)
    ∙ sym (append_assoc (reverse_onto [] ps) (p ∷ []) done)
    ∙ ap (λ l. l ++ done) (sym (reverse_onto-append ps (p ∷ [])))

module _ (eval_symlinks : FilePath → Option FilePath) where
  checked-LiesIn :
      (sandbox : String) (resolved p : FilePath)
      → is_empty sandbox ≡ false
      → checked eval_symlinks sandbox resolved ≡ some p
      → LiesIn (resolve_existing_ancestor eval_symlinks (parse_path sandbox)) p
  checked-LiesIn sandbox resolved p full h =
      let dir = resolve_existing_ancestor eval_symlinks (parse_path sandbox) in
      rel-LiesIn dir p (ground (arith, h, full))

  checked-same :
      (sandbox : String) (resolved p : FilePath)
      → checked eval_symlinks sandbox resolved ≡ some p
      → resolved ≡ p
  checked-same sandbox resolved p h = ground (arith, h)

  -- `p` is what the path `q` leads to: EvalSymlinks follows `q` to `p`. Or it cannot follow `q`, but
  -- follows a directory `a` above it, and `p` is the rest of the path behind what `a` leads to. Or `p`
  -- is the root, "/" or ".".
  abbrev pub Walked : FilePath → FilePath → Type 0
  Walked q p =
      ((a : List String) × (rest : List String) × (r : FilePath) × ((clean_path q).parts
          ≡ a ++ rest)
        × (eval_symlinks (record q { parts = a }) ≡ some r)
        × (p ≡ join_path r rest))
      ⊎ (p ≡ record q { parts = [] })

  abbrev pub LeadsTo : FilePath → FilePath → Type 0
  LeadsTo q p = (eval_symlinks q ≡ some p) ⊎ ((eval_symlinks q ≡ none) × Walked q p)

  walk_up-Walked :
      (q : FilePath) (reversed rest : List String)
      → (clean_path q).parts ≡ reverse_onto rest reversed
      → Walked q (walk_up eval_symlinks q reversed rest)
  unfolding walk_up reverse_onto
  walk_up-Walked q [] rest h = inr refl
  walk_up-Walked q (b ∷ above) rest h =
      go (eval_symlinks (at_parts eval_symlinks q above)) refl (walk_up-Walked q above (b ∷ rest) h)
    where
      go :
          (o : Option FilePath)
          → eval_symlinks (at_parts eval_symlinks q above) ≡ o
          → Walked q (walk_up eval_symlinks q above (b ∷ rest))
          → Walked q
              (or_joined eval_symlinks o (b ∷ rest) (walk_up eval_symlinks q above (b ∷ rest)))
      go (some r) e later =
          inl
            (reverse_onto [] above, b ∷ rest, r, h ∙ reverse_onto-append above (b ∷ rest), e, refl)
      go none e later = later

  resolve_existing_ancestor-LeadsTo :
      (q : FilePath) → LeadsTo q (resolve_existing_ancestor eval_symlinks q)
  unfolding resolve_existing_ancestor clean_path
  resolve_existing_ancestor-LeadsTo q = go (eval_symlinks q) refl
    where
      go : (o : Option FilePath) → eval_symlinks q ≡ o → LeadsTo q (or_walk eval_symlinks o q)
      go (some r) e = inl e
      go none e = inr (e, walk_up-Walked q (clean_reversed q) [] refl)

  -- Where there is a sandbox: no segment of a path that resolvePath takes is `..`, with a backslash
  -- read as a slash. What it returns is what EvalSymlinks gives for the path, or, where that fails,
  -- the rest of the path joined to what EvalSymlinks gives for a directory above it, or the root; and
  -- it lies, in clean form, in what the sandbox leads to in the same way. A link that leads nowhere
  -- stands in that rest under its own name.
  pub resolve_path-LiesIn :
      (path workspace allowed_dir : String) (p : FilePath)
      → is_empty (sandbox_of eval_symlinks workspace allowed_dir) ≡ false
      → resolve_path eval_symlinks path workspace allowed_dir ≡ some p
      → let sandbox = parse_path (sandbox_of eval_symlinks workspace allowed_dir) in
        All IsDown (split_slashes true path)
        × LeadsTo (located eval_symlinks (strip_workspace workspace path) workspace) p
        × ((dir : FilePath) × LeadsTo sandbox dir × LiesIn dir p)
  unfolding resolve_path has_dots
  resolve_path-LiesIn path workspace allowed_dir p full h =
      let q = located eval_symlinks (strip_workspace workspace path) workspace in
      let sandbox = sandbox_of eval_symlinks workspace allowed_dir in
      let resolved = resolve_existing_ancestor eval_symlinks q in
      let down : any (λ seg. str_eq seg "..") (split_slashes true path) ≡ false = ground arith in
      let inside : checked eval_symlinks sandbox resolved ≡ some p = ground (arith, h, down) in
      (
        any-IsDown (split_slashes true path) down,
        subst (LeadsTo q) (checked-same sandbox resolved p inside)
            (resolve_existing_ancestor-LeadsTo q),
        (
          resolve_existing_ancestor eval_symlinks (parse_path sandbox),
          resolve_existing_ancestor-LeadsTo (parse_path sandbox),
          checked-LiesIn sandbox resolved p full inside,
        ),
      )
