-- ===== src/Base/Loader.antt =====
-- efnfw/base/ef_loader.h: data with a version, which one thread sets and others load. A load reads
-- the version and then copies the data, so a new one may come in between. Versions are below 2^31.
pub mod Fresh
mod Tests
use gpush.Prelude.{ℕ, ◌+◌, List, [], ◌∷◌, Option, none, some, Bool, if◌then◌else◌, ltb}

pub record Versioned (T : Type 0) : Type 0 where
  pub data_of : T
  pub version : ℕ

-- The source, a loader of it, and the version that the loader has read, if it is inside `loadData`.
pub record Shared (T : Type 0) : Type 0 where
  pub src : Versioned T
  pub loader : Versioned T
  pub reads : Option ℕ

pub data Act (T : Type 0) : Type 0 where
  set_data : T → Act T
  read_version copy_data : Act T

module _ {T : Type 0} where
  -- The test of `loadData`: whether it goes on to copy the data.
  unfoldable pub is_new : ℕ → Versioned T → Bool
  is_new v l = ltb l.version v

  unfoldable pub act : Act T → Shared T → Shared T
  unfolding is_new
  act (set_data t) s = record s { src = record { data_of = t; version = s.src.version + 1 } }
  act read_version s = elim s.reads [
    | none ↦ if is_new s.src.version s.loader then record s { reads = some s.src.version } else s
    | some v ↦ s
  ]
  act copy_data s = elim s.reads [
    | none ↦ s
    | some v ↦ record s { loader = record { data_of = s.src.data_of; version = v }; reads = none }
  ]

  unfoldable pub acts : List (Act T) → Shared T → Shared T
  unfolding act
  acts [] s = s
  acts (a ∷ more) s = acts more (act a s)

  -- Both hold the same empty value at first.
  abbrev pub unset : T → Shared T
  unset t = record {
    src = record { data_of = t; version = 0 };
    loader = record { data_of = t; version = 0 };
    reads = none;
  }
