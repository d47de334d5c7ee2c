-- ===== src/Base/Loader/Fresh.antt =====
-- A loader that finds nothing new has the source's data.
use gpush.Prelude.{
  ℕ, ◌≤◌, ◌≡◌, refl, List, [], ◌∷◌, Option, some, false, Bool-cases, Option-cases, inl, inr, ltb,
  arith,
}
use gpush.Base.Loader.{Shared, Act, set_data, read_version, copy_data, is_new, act, acts, unset}

some_eq : (a b : ℕ) → ◌≡◌ {A = Option ℕ} (some a) (some b) → a ≡ b
some_eq a b e = cc e

version_eq : (a b : ℕ) → a ≤ b → ltb a b ≡ false → a ≡ b
version_eq a b h e = ground arith

module _ {T : Type 0} where
  -- The loader's version, and the one that it has read, are not past the source's; if the loader's is
  -- the source's, so is its data.
  pub record Follows (s : Shared T) : Type 0 where
    pub behind : s.loader.version ≤ s.src.version
    pub reading : (v : ℕ) → s.reads ≡ some v → v ≤ s.src.version
    pub same : s.loader.version ≡ s.src.version → s.loader.data_of ≡ s.src.data_of

  act-Follows : (a : Act T) (s : Shared T) → Follows s → Follows (act a s)
  unfolding act is_new
  act-Follows (set_data t) s f = record {
    behind = omega (arith, f.behind);
    reading = λ v e. omega (arith, f.reading v e);
    same = λ e. absurd (omega (arith, f.behind, e));
  }
  act-Follows read_version s f = elim (Option-cases s.reads) [
    | inl idle ↦ elim (Bool-cases (ltb s.loader.version s.src.version)) [
      | inl fresh ↦
          rw (idle, act)
            (rw (fresh, act)
              (record {
                behind = f.behind;
                reading = λ v e. omega (arith, some_eq s.src.version v e);
                same = f.same;
              }))
      | inr old ↦
          rw (idle, act)
            (rw (old, act)
              (record { behind = f.behind; reading = λ v e. absurd (cc e); same = f.same }))
    ]
    | inr (w, busy) ↦ rw (busy, act) f
  ]
  act-Follows copy_data s f = elim (Option-cases s.reads) [
    | inl idle ↦
        rw (idle, act) (record { behind = f.behind; reading = λ v e. absurd (cc e); same = f.same })
    | inr (w, busy) ↦
        rw (busy, act)
          (record { behind = f.reading w busy; reading = λ v e. absurd (cc e); same = λ e. refl })
  ]

  acts-Follows : (more : List (Act T)) (s : Shared T) → Follows s → Follows (acts more s)
  unfolding acts
  acts-Follows [] s f = f
  acts-Follows (a ∷ more) s f = acts-Follows more (act a s) (act-Follows a s f)

  unset-Follows : (t : T) → Follows (unset t)
  unset-Follows t = record {
    behind = omega arith;
    reading = λ v e. absurd (cc e);
    same = λ e. refl;
  }

  -- However setting and the two steps of loading come between each other, a loader that then finds
  -- nothing new holds the data that was set last.
  pub acts-current :
      (t : T) (more : List (Act T))
      → let s = acts more (unset t) in
        is_new s.src.version s.loader ≡ false → s.loader.data_of ≡ s.src.data_of
  unfolding is_new
  acts-current t more old =
      let f = acts-Follows more (unset t) (unset-Follows t) in
      let s = acts more (unset t) in f.same (version_eq s.loader.version s.src.version f.behind old)
