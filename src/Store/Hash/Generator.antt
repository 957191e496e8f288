-- ===== src/Store/Hash/Generator.antt =====
-- imagestore/hash.go: the goroutine of the names, and the requests that `Get` names from it.
pub mod Given
pub mod Unique
use mandible.Base.{ℕ, String, ◌≡◌, Bool, true, false, List, [], ◌∷◌, Option, none, some}
use mandible.Base.Int.{ℤ}
use mandible.Store.Types.{World, ImageStore}
use mandible.Store.Hash.{draw_name, taken}
use mandible.Concurrent.Runs.{Run}

-- The random draws to come, the name that the goroutine offers on its channel, which has no room, the
-- names that `Get` has returned, the last first, and the world.
pub record GeneratorSystem (C : Type 0) : Type 0 where
  pub draws : List (Option (List ℕ))
  pub offered : Option String
  pub given : List String
  pub world : World C

module _ {C : Type 0} (store : ImageStore C) (name_of : List ℕ → String) (length : ℤ) where
  -- A name is drawn that the store has, or one that it does not say to have, which is then offered; a
  -- `Get` takes the name that is offered; or something else happens, such as a `Save`.
  pub data GeneratorStep (s t : GeneratorSystem C) : Type 0 where
    draws_again :
        (str : List ℕ) (rest : List (Option (List ℕ)))
        → s.offered ≡ none
        → draw_name length [] s.draws ≡ some (str, rest)
        → taken store name_of (name_of str) s.world ≡ true
        → t ≡ record s { draws = rest }
        → GeneratorStep s t
    offers :
        (str : List ℕ) (rest : List (Option (List ℕ)))
        → s.offered ≡ none
        → draw_name length [] s.draws ≡ some (str, rest)
        → taken store name_of (name_of str) s.world ≡ false
        → t ≡ record s { draws = rest; offered = some (name_of str) }
        → GeneratorStep s t
    gives :
        (name : String)
        → s.offered ≡ some name
        → t ≡ record s { offered = none; given = name ∷ s.given }
        → GeneratorStep s t
    changes : (w : World C) → t ≡ record s { world = w } → GeneratorStep s t

  abbrev pub GeneratorReach : GeneratorSystem C → GeneratorSystem C → Type 0
  GeneratorReach s t = Run GeneratorStep s t

-- The goroutine has been started in this world, with these draws to come.
abbrev pub generator_start : {C : Type 0} → List (Option (List ℕ)) → World C → GeneratorSystem C
generator_start draws w = record { draws = draws; offered = none; given = []; world = w }
