-- ===== src/Tools/Lookup.antt =====
-- Register and Unregister of exoclaw/agent/tools/registry.go, seen through Get.
use exoclaw_go.Prelude.{
  ◌≡◌, refl, String, Bool, not, none, some, List, [], ◌∷◌, keep, if◌then◌else◌, str_eq, eq_iff,
  arith, Bool-cases, inl, inr,
}
use exoclaw_go.Tools.Registry.{Tool, Registry, find_tool, put_tool, register, unregister, get_tool}

module _ {W : Type 0} where
  find_tool-put_tool :
      (tool : Tool W) (n : String) (ts : List (Tool W))
      → find_tool n (put_tool tool ts) ≡ (if str_eq tool.name n then some tool else find_tool n ts)
  unfolding find_tool put_tool
  find_tool-put_tool tool n [] = refl
  find_tool-put_tool tool n (t ∷ ts) = ground (
    arith,
    eq_iff t.name tool.name,
    eq_iff t.name n,
    eq_iff tool.name n,
    find_tool-put_tool tool n ts,
  )

  -- A registered tool is found under its name, in place of one that had the name before, and every
  -- other name finds what it found.
  pub get_tool-register :
      (tool : Tool W) (optional : Bool) (n : String) (r : Registry W)
      → get_tool n (register tool optional r)
        ≡ (if str_eq tool.name n then some tool else get_tool n r)
  unfolding get_tool register
  get_tool-register tool optional n r = find_tool-put_tool tool n r.tools

  find_tool-keep :
      (gone n : String) (ts : List (Tool W))
      → find_tool n (keep (λ t. not (str_eq t.name gone)) ts)
        ≡ (if str_eq gone n then none else find_tool n ts)
  unfolding find_tool
  find_tool-keep gone n [] = ground arith
  find_tool-keep gone n (t ∷ ts) =
      ground (arith, eq_iff t.name gone, eq_iff t.name n, eq_iff gone n, find_tool-keep gone n ts)

  -- An unregistered name finds nothing, and every other name finds what it found.
  pub get_tool-unregister :
      (gone n : String) (r : Registry W)
      → get_tool n (unregister gone r) ≡ (if str_eq gone n then none else get_tool n r)
  unfolding get_tool unregister
  get_tool-unregister gone n r = find_tool-keep gone n r.tools

  -- No two entries have one name.
  abbrev pub IsMap : List (Tool W) → Type 0
  IsMap [] = Unit
  IsMap (t ∷ ts) = (find_tool t.name ts ≡ none) × IsMap ts

  put_tool-IsMap : (tool : Tool W) (ts : List (Tool W)) → IsMap ts → IsMap (put_tool tool ts)
  unfolding put_tool find_tool
  put_tool-IsMap tool [] m = (refl, tt)
  put_tool-IsMap tool (t ∷ ts) m = elim (Bool-cases (str_eq t.name tool.name)) [
    | inl e ↦ rw e (ground (arith, m, eq_iff t.name tool.name))
    | inr e ↦ rw e (
        ground (
          arith,
          m,
          find_tool-put_tool tool t.name ts,
          eq_iff t.name tool.name,
          eq_iff tool.name t.name,
          put_tool-IsMap tool ts m.1,
        ))
  ]

  keep-IsMap :
      (gone : String) (ts : List (Tool W))
      → IsMap ts
      → IsMap (keep (λ t. not (str_eq t.name gone)) ts)
  keep-IsMap gone [] m = tt
  keep-IsMap gone (t ∷ ts) m =
      ground (arith, m, find_tool-keep gone t.name ts, eq_iff gone t.name, keep-IsMap gone ts m.1)

  -- Registering and unregistering keep one entry for each name.
  pub register-IsMap :
      (tool : Tool W) (optional : Bool) (gone : String) (r : Registry W)
      → IsMap r.tools
      → IsMap (register tool optional r).tools × IsMap (unregister gone r).tools
  unfolding register unregister
  register-IsMap tool optional gone r m = (put_tool-IsMap tool r.tools m, keep-IsMap gone r.tools m)
