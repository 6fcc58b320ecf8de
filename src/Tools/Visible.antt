-- ===== src/Tools/Visible.antt =====
-- Which tools GetDefinitions of exoclaw/agent/tools/registry.go shows to the model.
use exoclaw_go.Prelude.{
  ◌≡◌, refl, String, true, false, not, none, List, ◌∷◌, if◌then◌else◌, eq_refl, arith,
}
use exoclaw_go.Tools.Registry.{Tool, Registry, lists, register, is_visible}

lists_self :
    (n : String) (xs : List String) → lists n (if not (lists n xs) then n ∷ xs else xs) ≡ true
unfolding lists
lists_self n xs = ground (arith, eq_refl n)

module _ {W : Type 0} where
  -- A tool that was registered as optional is hidden from the nil set, also when it is registered
  -- again as not optional: Register never clears the mark.
  pub is_visible-register :
      (tool again : Tool W) (r : Registry W)
      → again.name ≡ tool.name
      → is_visible (register again false (register tool true r)) none again ≡ false
  unfolding is_visible register
  is_visible-register tool again r same = rw (same, lists_self tool.name r.hidden) refl
