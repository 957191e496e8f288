-- ===== src/Tests/Runs.antt =====
-- The theorems on goroutines, at runs of two or three of them.
use mathlib.Core.List.{Permᴰ}
use mandible.Base.{
  suc, ◌≡◌, refl, inl, inr, ◌≤◌, ◌+◌, Bool, true, false, List, [], ◌∷◌, Option, none, some, All,
}
use mandible.Base.Dict.{lookup}
use mandible.Base.Result.{Result, ok}
use mandible.Store.Types.{StoreObject, ImageStore, Reader, new_store_object}
use mandible.Store.Single.{files, memory_store, whole}
use mandible.Store.Multi.{multi_store}
use mandible.Concurrent.Gather.{Caller}
use mandible.Concurrent.Runs.{Run, steps}
use mandible.Store.Gets.{GetSystem, GetStep, GetReach, get_start, loss}
use mandible.Store.Gets.Orders.{GetReach-multi_store}
use mandible.Store.Gets.Readers.{GetReach-closed, opened}
use mandible.Store.Gets.Progress.{Answers, GetReach-returned}
use mandible.Store.Existence.{ExistsSystem, ExistsStep, ExistsReach, exists_start}
use mandible.Store.Existence.Orders.{ExistsReach-multi_store}
use mandible.Store.Existence.Progress.{Ends, ExistsReach-returned}
use mandible.Tests.Data.{world, memory, jpeg_bytes}

abbrev old : StoreObject
old = new_store_object "old" "" "original"

abbrev missing : ImageStore Unit
missing = memory_store 1

-- The first store does not have the object, the two others do.
abbrev three : List (ImageStore Unit)
three = missing ∷ memory ∷ memory ∷ []

abbrev won : GetSystem Unit
won = record {
  pending = [];
  errs = loss missing "File doesn't exist" ∷ [];
  done = true;
  winner = none;
  results = none;
  closed = 1;
  caller = Caller.returned (ok (some (whole jpeg_bytes)));
}

get_run : GetReach old world (get_start three) won
unfolding files lookup
get_run =
    Run.next
      (Run.next
        (Run.next
          (Run.next
            (Run.next Run.here (
              GetStep.wins (missing ∷ []) (memory ∷ []) memory (some (whole jpeg_bytes)) refl refl
                refl refl))
            (GetStep.fails [] (memory ∷ []) missing "File doesn't exist" refl refl refl))
          (GetStep.sends (some (whole jpeg_bytes)) refl refl refl))
        (GetStep.closes [] [] memory (whole jpeg_bytes) refl refl refl refl))
      (GetStep.takes 2 (ok none) (some (whole jpeg_bytes)) refl refl refl)

GetReach-multi_store_example :
    (ends : List (ImageStore Unit)) × Permᴰ ends three
    × ((multi_store (λ _ _. ends) three).get old world ≡ ok (some (whole jpeg_bytes)))
GetReach-multi_store_example =
    GetReach-multi_store old world three won (ok (some (whole jpeg_bytes))) get_run refl

GetReach-closed_example : suc 1 + opened old world [] ≡ opened old world three
GetReach-closed_example = GetReach-closed old world three won (whole jpeg_bytes) get_run refl

three-Answers : All (Answers old world) three
unfolding files lookup
three-Answers = (
  inl ("File doesn't exist", refl),
  (inr (whole jpeg_bytes, refl), (inr (whole jpeg_bytes, refl), tt)),
)

GetReach-returned_example :
    (steps (GetStep old world) get_run ≤ 10)
    × ((t : GetSystem Unit) × GetReach old world won t
        × ((x : Result (Option Reader)) × (t.caller ≡ Caller.returned x)))
GetReach-returned_example = GetReach-returned old world three won get_run three-Answers

-- The first store has nothing under the name, the second has it, and is heard of first.
abbrev two : List (ImageStore Unit)
two = missing ∷ memory ∷ []

abbrev found : ExistsSystem Unit
found = record { pending = []; errs = []; results = []; caller = Caller.returned (ok true) }

exists_run : ExistsReach old world (exists_start two) found
unfolding files lookup
exists_run =
    Run.next
      (Run.next
        (Run.next
          (Run.next Run.here (ExistsStep.answers [] (memory ∷ []) missing false refl refl refl))
          (ExistsStep.takes_false 1 [] refl refl refl))
        (ExistsStep.answers [] [] memory true refl refl refl))
      (ExistsStep.takes_true 0 [] refl refl refl)

ExistsReach-multi_store_example :
    (ends : List (ImageStore Unit)) × Permᴰ ends two
    × ((multi_store (λ _ _. ends) two).exists old world ≡ ok true)
ExistsReach-multi_store_example =
    ExistsReach-multi_store old world two found (ok true) exists_run refl

two-Ends : All (Ends old world) two
two-Ends = (λ e. cc e, (λ e. cc e, tt))

ExistsReach-returned_example :
    (steps (ExistsStep old world) exists_run ≤ 5)
    × ((t : ExistsSystem Unit) × ExistsReach old world found t
        × ((x : Result Bool) × (t.caller ≡ Caller.returned x)))
ExistsReach-returned_example = ExistsReach-returned old world two found exists_run two-Ends
