-- ===== src/Store/Hash/Generator/Given.antt =====
-- The names that the generator of imagestore/hash.go gives.
use mathlib.Core.Path.{subst}
use mandible.Base.{ℕ, String, ◌≡◌, refl, sym, ap, false, List, [], ◌∷◌, Option, none, some, All}
use mandible.Base.Int.{pos}
use mandible.Store.Types.{World, ImageStore}
use mandible.Store.Hash.{draw_name, taken}
use mandible.Store.Hash.Names.{IsName, draw_name-IsName}
use mandible.Store.Hash.Generator.{GeneratorSystem, GeneratorStep, GeneratorReach, generator_start}
use mandible.Concurrent.Runs.{Run}

module _ {C : Type 0} (store : ImageStore C) (name_of : List ℕ → String) (n : ℕ)
    (draws : List (Option (List ℕ))) (w : World C) where
  abbrev Reach : GeneratorSystem C → GeneratorSystem C → Type 0
  Reach = GeneratorReach store name_of (pos n)

  -- The name is one of letters and digits, and in some state on the way the store did not say that it
  -- had it.
  abbrev pub WasFree : GeneratorSystem C → String → Type 0
  WasFree s name =
      (u : GeneratorSystem C) × (str : List ℕ) × Reach (generator_start draws w) u
      × Reach u s
      × (name ≡ name_of str)
      × IsName n str
      × (taken store name_of name u.world ≡ false)

  abbrev OfferedFree : GeneratorSystem C → Option String → Type 0
  OfferedFree s none = Unit
  OfferedFree s (some name) = WasFree s name

  WasFree-next :
      (s t : GeneratorSystem C) (name : String)
      → GeneratorStep store name_of (pos n) s t
      → WasFree s name
      → WasFree t name
  WasFree-next s t name step (u, str, r, q, named, is, free) =
      (u, str, r, Run.next q step, named, is, free)

  OfferedFree-next :
      (s t : GeneratorSystem C) (o : Option String)
      → GeneratorStep store name_of (pos n) s t
      → OfferedFree s o
      → OfferedFree t o
  OfferedFree-next s t none step h = tt
  OfferedFree-next s t (some name) step h = WasFree-next s t name step h

  All-next :
      (s t : GeneratorSystem C) (names : List String)
      → GeneratorStep store name_of (pos n) s t
      → All (WasFree s) names
      → All (WasFree t) names
  All-next s t [] step h = tt
  All-next s t (name ∷ names) step (h, hs) =
      (WasFree-next s t name step h, All-next s t names step hs)

  abbrev Inv : GeneratorSystem C → Type 0
  Inv s = OfferedFree s s.offered × All (WasFree s) s.given

  -- What a state offers and has given by its fields.
  Inv-by :
      (t : GeneratorSystem C) (o : Option String) (names : List String)
      → t.offered ≡ o
      → t.given ≡ names
      → OfferedFree t o
      → All (WasFree t) names
      → Inv t
  Inv-by t o names e f h k = (subst (OfferedFree t) (sym e) h, subst (All (WasFree t)) (sym f) k)

  Step-Inv :
      (s t : GeneratorSystem C)
      → Reach (generator_start draws w) s
      → GeneratorStep store name_of (pos n) s t
      → Inv s
      → Inv t
  Step-Inv s t r step (o, g) =
      let kept = OfferedFree-next s t s.offered step o in
      let all_kept = All-next s t s.given step g in
      elim step [
        | GeneratorStep.draws_again str rest none_offered drawn known same ↦
            Inv-by t s.offered s.given (ap (λ (x : GeneratorSystem C). x.offered) same)
              (ap (λ (x : GeneratorSystem C). x.given) same) kept all_kept
        | GeneratorStep.offers str rest none_offered drawn free same ↦
            Inv-by t (some (name_of str)) s.given (ap (λ (x : GeneratorSystem C). x.offered) same)
              (ap (λ (x : GeneratorSystem C). x.given) same)
              (
                s,
                str,
                r,
                Run.next Run.here (GeneratorStep.offers str rest none_offered drawn free same),
                refl,
                (draw_name-IsName n s.draws {str = str} {rest = rest} drawn).0,
                free,
              )
              all_kept
        | GeneratorStep.gives name offered same ↦
            Inv-by t none (name ∷ s.given) (ap (λ (x : GeneratorSystem C). x.offered) same)
              (ap (λ (x : GeneratorSystem C). x.given) same) tt
              (subst (OfferedFree t) offered kept, all_kept)
        | GeneratorStep.changes v same ↦
            Inv-by t s.offered s.given (ap (λ (x : GeneratorSystem C). x.offered) same)
              (ap (λ (x : GeneratorSystem C). x.given) same) kept all_kept
      ]

  Reach-Inv : (s : GeneratorSystem C) → Reach (generator_start draws w) s → Inv s
  Reach-Inv s Run.here = (tt, tt)
  Reach-Inv t (Run.next {t = s} r step) = Step-Inv s t r step (Reach-Inv s r)

  -- Whatever happens while the generator runs, every name that `Get` has returned is one of letters
  -- and digits, not longer than it should be, and in some state on the way the store did not say that
  -- it had it.
  pub GeneratorReach-WasFree :
      (s : GeneratorSystem C)
      → GeneratorReach store name_of (pos n) (generator_start draws w) s
      → All (WasFree s) s.given
  GeneratorReach-WasFree s r = (Reach-Inv s r).1

  -- A name that is drawn twice in a row, and that the store does not say to have, is given twice: it is
  -- checked again before an upload is saved under it.
  pub GeneratorReach-twice :
      (str : List ℕ) (rest rest' : List (Option (List ℕ)))
      → draw_name (pos n) [] draws ≡ some (str, rest)
      → draw_name (pos n) [] rest ≡ some (str, rest')
      → taken store name_of (name_of str) w ≡ false
      → (s : GeneratorSystem C) × GeneratorReach store name_of (pos n) (generator_start draws w) s
        × (s.given ≡ name_of str ∷ name_of str ∷ [])
  GeneratorReach-twice str rest rest' drawn again free = (
    record { draws = rest'; offered = none; given = name_of str ∷ name_of str ∷ []; world = w },
    Run.next
        (Run.next
          (Run.next (Run.next Run.here (GeneratorStep.offers str rest refl drawn free refl))
            (GeneratorStep.gives (name_of str) refl refl))
          (GeneratorStep.offers str rest' refl again free refl))
        (GeneratorStep.gives (name_of str) refl refl),
    refl,
  )
