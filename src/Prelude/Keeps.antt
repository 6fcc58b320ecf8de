-- ===== src/Prelude/Keeps.antt =====
-- Invariants of calls: one rule for each way to build a call.
use mathlib.Core.Bool.{Bool, true, false}
use mathlib.Core.Option.{Option, none, some}
use exoclaw_go.Prelude.Tests.{if◌then◌else◌, when_set}
use exoclaw_go.Prelude.Effects.{Error, Result, ok, err, Exec, pure, raise, continue, ◌>>=◌}

-- The call keeps `P`, whether it returns or fails.
pub record Keeps {S A : Type 0} (P : S → Type 0) (m : Exec S A) : Type 0 where
  pub at : (s : S) → P s → P (m s).1

module _ {S A : Type 0} {P : S → Type 0} where
  pub Keeps-pure : (a : A) → Keeps P (pure {S = S} a)
  Keeps-pure a = record { at = λ s h. h }

  pub Keeps-raise : (e : Error) → Keeps P (raise {S = S} {A = A} e)
  Keeps-raise e = record { at = λ s h. h }

  pub Keeps-if : (b : Bool) (m n : Exec S A) → Keeps P m → Keeps P n → Keeps P (if b then m else n)
  Keeps-if true m n km kn = km
  Keeps-if false m n km kn = kn

module _ {S A B : Type 0} {P : S → Type 0} where
  pub continue-Keeps :
      (r : Result A) (s : S) (f : A → Exec S B)
      → ((a : A) → Keeps P (f a))
      → P s
      → P (continue (r, s) f).1
  continue-Keeps (ok a) s f kf h = (kf a).at s h
  continue-Keeps (err e) s f kf h = h

  pub Keeps-bind :
      (m : Exec S A) (next : A → Exec S B)
      → Keeps P m
      → ((a : A) → Keeps P (next a))
      → Keeps P (m >>= next)
  Keeps-bind m next km kn = record {
    at = λ s h. continue-Keeps (m s).0 (m s).1 next kn (km.at s h);
  }

module _ {S A B : Type 0} {P : S → Type 0} where
  pub Keeps-when_set :
      (o : Option B) (m : Exec S A) (f : B → Exec S A)
      → Keeps P m
      → ((b : B) → Keeps P (f b))
      → Keeps P (when_set o m f)
  Keeps-when_set none m f km kf = km
  Keeps-when_set (some b) m f km kf = kf b

module _ {S R B : Type 0} (P : S → Type 0) where
  pub when_set-state :
      (o : Option B) (r : R × S) (f : B → R × S)
      → P r.1
      → ((b : B) → P (f b).1)
      → P (when_set o r f).1
  when_set-state none r f h k = h
  when_set-state (some b) r f h k = k b

module _ {S R B : Type 0} (P : R → Type 0) where
  pub when_set-value :
      (o : Option B) (r : R × S) (f : B → R × S)
      → P r.0
      → ((b : B) → P (f b).0)
      → P (when_set o r f).0
  when_set-value none r f h k = h
  when_set-value (some b) r f h k = k b

pub ruleset keeps_rules = (Keeps-pure, Keeps-raise, Keeps-if, Keeps-bind, Keeps-when_set)
