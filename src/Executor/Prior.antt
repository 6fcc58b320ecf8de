-- ===== src/Executor/Prior.antt =====
-- buildLazyPriorSource of exoclaw/executor/direct.go: the persisted history inside the prompt is
-- found and replaced by a source that reads it again. `reflect.DeepEqual` on two messages is the
-- parameter `deep_equal`.
use exoclaw_go.Prelude.{
  ℕ, zero, suc, ◌+◌, ◌-◌, ◌≡◌, ◌≢◌, refl, arith, Bool, true, false, ◌&&◌, Option, none, some,
  Bool-cases, Option-cases, ◌⊎◌, sym, inl, inr, List, [], ◌∷◌, ◌++◌, if◌then◌else◌, length,
  length-append, ◌<◌, take, drop, ltb,
}
use mathlib.Core.Option.{some-injective}
use native.Mathlib.Nat.{suc-add, zero-add}
use exoclaw_go.Json.{Fields}
use exoclaw_go.Executor.Direct.{PriorSource}

abbrev shift : Option ℕ → Option ℕ
shift none = none
shift (some i) = some (suc i)

module _ (deep_equal : Fields → Fields → Bool) where
  -- The snapshot stands at the head of the list.
  matches : List Fields → List Fields → Bool
  matches full [] = true
  matches [] (s ∷ snapshot) = false
  matches (m ∷ full) (s ∷ snapshot) = deep_equal m s && matches full snapshot

  -- The outer loop, by its rounds left: the first offset at which the snapshot matches.
  first_match : ℕ → List Fields → List Fields → Option ℕ
  unfolding matches
  first_match zero full snapshot = none
  first_match (suc rounds) full snapshot =
      let rest = shift (first_match rounds (drop 1 full) snapshot) in
      if matches full snapshot then some 0 else rest

  abbrev pub splice : List Fields → List Fields → ℕ → PriorSource
  splice full snapshot i history = take i full ++ (history ++ drop (i + length snapshot) full)

  abbrev source_at : List Fields → List Fields → Option ℕ → Option PriorSource
  source_at full snapshot none = none
  source_at full snapshot (some i) = some (splice full snapshot i)

  unfoldable pub build_lazy_prior_source : List Fields → List Fields → Option PriorSource
  unfolding first_match
  build_lazy_prior_source full [] = none
  build_lazy_prior_source full (s ∷ snapshot) =
      if ltb (length full) (length (s ∷ snapshot))
      then none
      else source_at full (s ∷ snapshot)
          (first_match (length full - length (s ∷ snapshot) + 1) full (s ∷ snapshot))

  -- Equal message by message.
  abbrev pub Agree : List Fields → List Fields → Type 0
  Agree [] [] = Unit
  Agree (m ∷ ms) (n ∷ ns) = (deep_equal m n ≡ true) × Agree ms ns
  Agree _ _ = ⊥

  module _ (deep_equal_refl : (m : Fields) → deep_equal m m ≡ true) where
    Agree-refl : (ms : List Fields) → Agree ms ms
    Agree-refl [] = tt
    Agree-refl (m ∷ ms) = (deep_equal_refl m, Agree-refl ms)

    take-nil : (i : ℕ) → take {A = Fields} i [] ≡ []
    take-nil zero = refl
    take-nil (suc i) = refl

    drop-nil : (i : ℕ) → drop {A = Fields} i [] ≡ []
    drop-nil zero = refl
    drop-nil (suc i) = refl

    splice-step :
        (full snapshot : List Fields) (j : ℕ)
        → Agree (drop 1 full) (splice (drop 1 full) snapshot j snapshot)
        → Agree full (splice full snapshot (suc j) snapshot)
    splice-step [] snapshot j h = rw drop-nil (simp (take-nil, drop-nil) at h)
    splice-step (m ∷ full) snapshot j h = (deep_equal_refl m, rw suc-add h)

    splice-Agree :
        (full snapshot : List Fields)
        → matches full snapshot ≡ true
        → Agree full (snapshot ++ drop (length snapshot) full)
    unfolding matches
    splice-Agree full [] h = Agree-refl full
    splice-Agree [] (s ∷ snapshot) h = absurd (ground arith)
    splice-Agree (m ∷ full) (s ∷ snapshot) h =
        (ground arith, splice-Agree full snapshot (ground arith))

    -- A hit of the loop is a match at its own head, or a hit of the rest one place on.
    first_match-inv :
        (rounds : ℕ) (full snapshot : List Fields) (i : ℕ)
        → first_match (suc rounds) full snapshot ≡ some i
        → ((matches full snapshot ≡ true) × (i ≡ 0))
          ⊎ ((j : ℕ) × (first_match rounds (drop 1 full) snapshot ≡ some j) × (i ≡ suc j))
    unfolding first_match
    first_match-inv rounds full snapshot i h =
        elim (Option-cases (first_match rounds (drop 1 full) snapshot)) [
          | inl e ↦ inl (ground arith, ground arith)
          | inr (j, e) ↦ elim (Bool-cases (matches full snapshot)) [
            | inl b ↦ inl (b, ground arith)
            | inr b ↦ inr (j, e, ground arith)
          ]
        ]

    first_match-Agree :
        (rounds : ℕ) (full snapshot : List Fields) (i : ℕ)
        → first_match rounds full snapshot ≡ some i
        → Agree full (splice full snapshot i snapshot)
    unfolding first_match
    first_match-Agree zero full snapshot i h = absurd (ground arith)
    first_match-Agree (suc rounds) full snapshot i h =
        elim (first_match-inv rounds full snapshot i h) [
          | inl (b, z) ↦ rw (z, zero-add) (splice-Agree full snapshot b)
          | inr (j, e, z) ↦
              rw z
                (splice-step full snapshot j (first_match-Agree rounds (drop 1 full) snapshot j e))
        ]

    source_at-inv :
        (full snapshot : List Fields) (o : Option ℕ) (source : PriorSource)
        → source_at full snapshot o ≡ some source
        → (i : ℕ) × (o ≡ some i) × (source ≡ splice full snapshot i)
    source_at-inv full snapshot none source h = absurd (ground arith)
    source_at-inv full snapshot (some i) source h = (i, refl, sym (some-injective _ _ h))

    -- Where DeepEqual is reflexive: while the persisted history is still the snapshot, the source
    -- yields the prompt again, message by message.
    pub build_lazy_prior_source-Agree :
        (full snapshot : List Fields) (source : PriorSource)
        → build_lazy_prior_source full snapshot ≡ some source
        → Agree full (source snapshot)
    unfolding build_lazy_prior_source
    build_lazy_prior_source-Agree full [] source h = absurd (ground arith)
    build_lazy_prior_source-Agree full (s ∷ snapshot) source h =
        elim (Bool-cases (ltb (length full) (length (s ∷ snapshot)))) [
          | inl b ↦ absurd (ground arith)
          | inr b ↦
              let (i, e, z) =
                source_at-inv full (s ∷ snapshot)
                  (first_match (length full - length (s ∷ snapshot) + 1) full (s ∷ snapshot)) source
                  (rw b at h) in
              rw z (first_match-Agree _ full (s ∷ snapshot) i e)
        ]

    matches-append : (snapshot rest : List Fields) → matches (snapshot ++ rest) snapshot ≡ true
    unfolding matches
    matches-append [] [] = refl
    matches-append [] (m ∷ rest) = refl
    matches-append (s ∷ snapshot) rest = rw (deep_equal_refl s) (matches-append snapshot rest)

    first_match-ne-none :
        (rounds : ℕ) (before snapshot rest : List Fields)
        → length before < rounds
        → first_match rounds (before ++ (snapshot ++ rest)) snapshot ≢ none
    unfolding first_match
    first_match-ne-none zero before snapshot rest h = absurd (omega arith)
    first_match-ne-none (suc rounds) [] snapshot rest h =
        rw (matches-append snapshot rest) (λ e. cc)
    first_match-ne-none (suc rounds) (m ∷ before) snapshot rest h =
        ground (arith, first_match-ne-none rounds before snapshot rest)

    -- Where DeepEqual is reflexive: a snapshot that is not empty and stands anywhere in the prompt
    -- is found, so that the lazy source is installed.
    pub build_lazy_prior_source-ne-none :
        (before rest : List Fields) (s : Fields) (snapshot : List Fields)
        → build_lazy_prior_source (before ++ ((s ∷ snapshot) ++ rest)) (s ∷ snapshot) ≢ none
    unfolding build_lazy_prior_source
    build_lazy_prior_source-ne-none before rest s snapshot = ground (
      arith,
      length-append before ((s ∷ snapshot) ++ rest),
      length-append snapshot rest,
      first_match-ne-none (length (before ++ ((s ∷ snapshot) ++ rest)) - length (s ∷ snapshot) + 1)
          before (s ∷ snapshot) rest,
    )
