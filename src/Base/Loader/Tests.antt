-- ===== src/Base/Loader/Tests.antt =====
-- Data that is set while it is loaded.
use gpush.Prelude.{ℕ, ◌≡◌, refl, List, [], ◌∷◌}
use gpush.Base.Loader.{Act, set_data, read_version, copy_data, act, acts, is_new, unset}
use gpush.Base.Loader.Fresh.{acts-current}

abbrev overtaken : List (Act ℕ)
overtaken = set_data 5 ∷ read_version ∷ set_data 6 ∷ copy_data ∷ read_version ∷ copy_data ∷ []

acts-current_example :
    (acts overtaken (unset 0)).loader.data_of ≡ (acts overtaken (unset 0)).src.data_of
unfolding acts act is_new
acts-current_example = acts-current 0 overtaken refl

abbrev half_way : List (Act ℕ)
half_way = set_data 5 ∷ read_version ∷ set_data 6 ∷ copy_data ∷ []

-- The first load has copied the second data with the first version, so the second load is needed.
acts-half_way : (acts half_way (unset 0)).loader ≡ record { data_of = 6; version = 1 }
unfolding acts act is_new
acts-half_way = refl
