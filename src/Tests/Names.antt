-- ===== src/Tests/Names.antt =====
-- The theorems on the generator of names, at a store in memory.
use mandible.Base.{
  ℕ, String, ◌≡◌, refl, true, false, List, [], ◌∷◌, Option, none, some, All, ◌==◌, nat_eq,
  if◌then◌else◌,
}
use mandible.Base.Int.{pos}
use mandible.Base.Dict.{lookup}
use mandible.Store.Types.{World}
use mandible.Store.Single.{files}
use mandible.Store.Hash.{take_bytes, draw_name, taken}
use mandible.Store.Hash.Generator.{GeneratorSystem, GeneratorStep, GeneratorReach, generator_start}
use mandible.Store.Hash.Generator.Given.{WasFree, GeneratorReach-WasFree, GeneratorReach-twice}
use mandible.Store.Hash.Generator.Unique.{AllDifferent, Settled-AllDifferent}
use mandible.Concurrent.Runs.{Run}
use mandible.Tests.Data.{world, memory, jpeg_bytes}

-- The letters B and C stand for two names.
abbrev name_of : List ℕ → String
name_of [] = ""
name_of (b ∷ _) = if b == 66 then "new" else "newer"

abbrev draws : List (Option (List ℕ))
draws = some (132 ∷ []) ∷ some (134 ∷ []) ∷ []

new_drawn :
    (rest : List (Option (List ℕ)))
    → draw_name (pos 1) [] (some (132 ∷ []) ∷ rest) ≡ some (66 ∷ [], rest)
unfolding draw_name take_bytes
new_drawn [] = refl
new_drawn (none ∷ rest) = refl
new_drawn (some bytes ∷ rest) = refl

newer_drawn : draw_name (pos 1) [] (some (134 ∷ []) ∷ []) ≡ some (67 ∷ [], [])
unfolding draw_name take_bytes
newer_drawn = refl

new_free : taken memory name_of "new" world ≡ false
unfolding files lookup
new_free = refl

-- The upload has been saved.
abbrev later : World Unit
later = record world { memories = (("new", jpeg_bytes) ∷ []) ∷ [] }

new_known : taken memory name_of "new" later ≡ true
unfolding files lookup
new_known = refl

newer_free : taken memory name_of "newer" later ≡ false
unfolding files lookup
newer_free = refl

abbrev two_given : GeneratorSystem Unit
two_given = record { draws = []; offered = none; given = "newer" ∷ "new" ∷ []; world = later }

abbrev names_run : GeneratorReach memory name_of (pos 1) (generator_start draws world) two_given
names_run =
    Run.next
      (Run.next
        (Run.next
          (Run.next
            (Run.next Run.here (
              GeneratorStep.offers (66 ∷ []) (some (134 ∷ []) ∷ []) refl
                (new_drawn (some (134 ∷ []) ∷ [])) new_free refl))
            (GeneratorStep.gives "new" refl refl))
          (GeneratorStep.changes later refl))
        (GeneratorStep.offers (67 ∷ []) [] refl newer_drawn newer_free refl))
      (GeneratorStep.gives "newer" refl refl)

GeneratorReach-WasFree_example :
    All (WasFree memory name_of 1 draws world two_given) ("newer" ∷ "new" ∷ [])
GeneratorReach-WasFree_example =
    GeneratorReach-WasFree memory name_of 1 draws world two_given names_run

Settled-AllDifferent_example : AllDifferent ("newer" ∷ "new" ∷ [])
Settled-AllDifferent_example =
    Settled-AllDifferent memory name_of (pos 1) draws world two_given names_run
      (((((tt, tt), tt), tt), (new_known, tt)), tt)

-- The same letter twice.
abbrev same_draws : List (Option (List ℕ))
same_draws = some (132 ∷ []) ∷ some (132 ∷ []) ∷ []

GeneratorReach-twice_example :
    (s : GeneratorSystem Unit) × GeneratorReach memory name_of
      (pos 1)
      (generator_start same_draws world)
      s
    × (s.given ≡ "new" ∷ "new" ∷ [])
GeneratorReach-twice_example =
    GeneratorReach-twice memory name_of 1 same_draws world (66 ∷ []) (some (132 ∷ []) ∷ []) []
      (new_drawn (some (132 ∷ []) ∷ [])) (new_drawn []) new_free
