-- ===== src/Process/Types.antt =====
-- imageprocessor/imageprocessor.go: the interface `ProcessType`, and a list of processes run in a
-- row or all at once.
use mandible.Base.{String, ◌<>◌, List, [], ◌∷◌, map}
use mandible.Base.Text.{join}
use mandible.Base.Result.{ok, err, panic, Action, ⊤}
use mandible.Upload.File.{Job}

-- A value of the interface is its two methods.
pub record ProcessType : Type 0 where
  pub process : Action Job ⊤
  pub string : String

-- The loop of both methods `Process`: it ends at the first error, with `context` in front.
unfoldable pub run_all : String → List ProcessType → Action Job ⊤
run_all context [] j = (ok tt, j)
run_all context (p ∷ ps) j =
    let (r, j') = p.process j in
    elim r [
      | ok _ ↦ run_all context ps j'
      | err e ↦ (err (context <> (p.string <> (": " <> e))), j')
      | panic ↦ (panic, j')
    ]

abbrev names : List ProcessType → String
names ps = join ", " (map (λ p. p.string) ps)

abbrev pub multi_process : List ProcessType → ProcessType
multi_process ps = record {
  process = run_all "Error multiprocessing on " ps;
  string = "Multiple processes <" <> (names ps <> ">");
}

-- An order in which goroutines end, for the state in which they are started.
abbrev pub Order : Type 0 → Type 0 → Type 0
Order S A = S → List A → List A

-- The goroutines are taken one after the other, in the order in which they end: what each sends is
-- received before the next one is looked at, and after an error the others are not waited for.
abbrev pub async_process : Order Job ProcessType → List ProcessType → ProcessType
async_process order ps = record {
  process = λ j. run_all "Error asynchronously processing on " (order j ps) j;
  string = "Async processes <" <> (names ps <> ">");
}
