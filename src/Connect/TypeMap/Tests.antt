-- ===== src/Connect/TypeMap/Tests.antt =====
-- Three requests to three servers, when the counter is 4.
use gpush.Prelude.{◌≡◌, refl, [], ◌∷◌, some, arith}
use gpush.Connect.TypeMap.Turns.{turns, turns-each}

turns-each_example :
    turns (λ c. 1) 3 (record { svs = 50 ∷ 77 ∷ 60 ∷ []; cnt = 4 })
    ≡ some 77 ∷ some 60 ∷ some 50 ∷ []
turns-each_example =
    turns-each (λ c. 1) (λ c. refl) (50 ∷ []) (77 ∷ 60 ∷ []) 1 (omega arith) (omega arith)
      (omega arith)
