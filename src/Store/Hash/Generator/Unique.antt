-- ===== src/Store/Hash/Generator/Unique.antt =====
-- When the generator of imagestore/hash.go gives no name twice.
use mathlib.Core.Path.{subst}
use mandible.Base.{
  ℕ, String, ◌≡◌, ◌≢◌, sym, ap, true, false, List, [], ◌∷◌, Option, none, some, All,
}
use mandible.Base.Int.{ℤ}
use mandible.Store.Types.{World, ImageStore}
use mandible.Store.Hash.{taken}
use mandible.Store.Hash.Generator.{GeneratorSystem, GeneratorStep, GeneratorReach, generator_start}
use mandible.Concurrent.Runs.{Run}

-- No two of them are the same.
abbrev pub AllDifferent : List String → Type 0
AllDifferent [] = Unit
AllDifferent (name ∷ names) = All (λ other. name ≢ other) names × AllDifferent names

module _ {C : Type 0} (store : ImageStore C) (name_of : List ℕ → String) (len : ℤ)
    (draws : List (Option (List ℕ))) (w : World C) where
  -- Where a name is offered, the store says of all names that have been given that it has them.
  abbrev Checked : (s t : GeneratorSystem C) → GeneratorStep store name_of len s t → Type 0
  Checked s t (GeneratorStep.draws_again _ _ _ _ _ _) = Unit
  Checked s t (GeneratorStep.offers _ _ _ _ _ _) =
      All (λ name. taken store name_of name s.world ≡ true) s.given
  Checked s t (GeneratorStep.gives _ _ _) = Unit
  Checked s t (GeneratorStep.changes _ _) = Unit

  -- In a run the uploads are saved before the next name is offered.
  abbrev pub Settled :
      (s : GeneratorSystem C)
      → GeneratorReach store name_of len (generator_start draws w) s
      → Type 0
  Settled s Run.here = Unit
  Settled t (Run.next {t = s} r step) = Settled s r × Checked s t step

  abbrev Unlike : List String → Option String → Type 0
  Unlike names none = Unit
  Unlike names (some name) = All (λ other. name ≢ other) names

  Unlike-taken :
      (name : String) (names : List String) (v : World C)
      → taken store name_of name v ≡ false
      → All (λ other. taken store name_of other v ≡ true) names
      → All (λ other. name ≢ other) names
  Unlike-taken name [] v free all = tt
  Unlike-taken name (other ∷ names) v free (known, all) = (
    λ same. absurd (cc (free, known, ap (λ x. taken store name_of x v) same)),
    Unlike-taken name names v free all,
  )

  abbrev Differ : GeneratorSystem C → Type 0
  Differ s = Unlike s.given s.offered × AllDifferent s.given

  Differ-by :
      (t : GeneratorSystem C) (o : Option String) (names : List String)
      → t.offered ≡ o
      → t.given ≡ names
      → Unlike names o
      → AllDifferent names
      → Differ t
  Differ-by t o names e f h k = (
    subst (λ x. Unlike x t.offered) (sym f) (subst (Unlike names) (sym e) h),
    subst AllDifferent (sym f) k,
  )

  Step-Differ :
      (s t : GeneratorSystem C) (step : GeneratorStep store name_of len s t)
      → Checked s t step
      → Differ s
      → Differ t
  Step-Differ s t (GeneratorStep.draws_again str rest _ _ _ same) c (u, d) =
      Differ-by t s.offered s.given (ap (λ (x : GeneratorSystem C). x.offered) same)
        (ap (λ (x : GeneratorSystem C). x.given) same) u d
  Step-Differ s t (GeneratorStep.offers str rest _ _ free same) c (u, d) =
      Differ-by t (some (name_of str)) s.given (ap (λ (x : GeneratorSystem C). x.offered) same)
        (ap (λ (x : GeneratorSystem C). x.given) same)
        (Unlike-taken (name_of str) s.given s.world free c) d
  Step-Differ s t (GeneratorStep.gives name offered same) c (u, d) =
      Differ-by t none (name ∷ s.given) (ap (λ (x : GeneratorSystem C). x.offered) same)
        (ap (λ (x : GeneratorSystem C). x.given) same) tt (subst (Unlike s.given) offered u, d)
  Step-Differ s t (GeneratorStep.changes v same) c (u, d) =
      Differ-by t s.offered s.given (ap (λ (x : GeneratorSystem C). x.offered) same)
        (ap (λ (x : GeneratorSystem C). x.given) same) u d

  Settled-Differ :
      (s : GeneratorSystem C) (r : GeneratorReach store name_of len (generator_start draws w) s)
      → Settled s r
      → Differ s
  Settled-Differ s Run.here h = (tt, tt)
  Settled-Differ t (Run.next {t = s} r step) (h, c) = Step-Differ s t step c (Settled-Differ s r h)

  -- If, whenever the generator offers a name, the store has all that were given before, then no name is
  -- given twice.
  pub Settled-AllDifferent :
      (s : GeneratorSystem C) (r : GeneratorReach store name_of len (generator_start draws w) s)
      → Settled s r
      → AllDifferent s.given
  Settled-AllDifferent s r h = (Settled-Differ s r h).1
