-- ===== src/Process/Async/Orders.antt =====
-- A call of asyncProcessType.Process in imageprocessor/imageprocessor.go, and the processes one after the other.
use mathlib.Core.List.{Permᴰ}
use mandible.Base.{
  ◌+◌, ◌*◌, ◌≤◌, ◌≡◌, refl, sym, ◌∙◌, ◌⊎◌, inl, inr, List, [], ◌∷◌, ◌++◌, length, arith,
}
use mandible.Base.Result.{Result, ok, ⊤, Result-cases}
use mandible.Upload.File.{Job}
use mandible.Process.Types.{ProcessType, run_all, async_process}
use mandible.Concurrent.Runs.{steps}
use mandible.Concurrent.Gather.{Caller, messages, effects, consume, result}
use mandible.Concurrent.Gather.Progress.{
  Outcome-effects, outcome, Reach-rank, Reach-Step, Reach-returned,
}
use mandible.Process.Async.{
  goroutine, first_error, no_error, AsyncSystem, async_start, AsyncReach, AsyncStep,
}

-- The processes in a row give what the loop over their messages gives.
run_all-result :
    (ps : List ProcessType) (j : Job)
    → (run_all "Error asynchronously processing on " ps j).0
      ≡ result no_error (consume first_error tt (messages goroutine ps j))
unfolding run_all messages consume goroutine
run_all-result [] j = refl
run_all-result (p ∷ ps) j = elim (Result-cases (p.process j).0) [
  | inl (_, e) ↦ ground (arith, run_all-result ps (p.process j).1)
  | inr (inl (x, e)) ↦ ground arith
  | inr (inr e) ↦ ground arith
]

-- Where they succeed they leave what all of them leave.
run_all-effects :
    (ps : List ProcessType) (j : Job)
    → (run_all "Error asynchronously processing on " ps j).0 ≡ ok tt
    → ((run_all "Error asynchronously processing on " ps j).1 ≡ effects goroutine ps j)
      × (consume first_error tt (messages goroutine ps j) ≡ inr tt)
unfolding run_all messages consume effects goroutine
run_all-effects [] j h = (refl, refl)
run_all-effects (p ∷ ps) j h = elim (Result-cases (p.process j).0) [
  | inl (_, e) ↦
      let (left, gathered) = run_all-effects ps (p.process j).1 (rw (e, run_all) at h) in
      (ground (arith, left), ground (arith, gathered))
  | inr (inl (x, e)) ↦ absurd (ground arith)
  | inr (inr e) ↦ absurd (ground arith)
]

-- In whichever way the goroutines and the caller take turns, the caller returns what the processes give
-- one after the other in some order; and if it returns without an error, it leaves what they leave
-- in that order.
pub AsyncReach-async_process :
    (ps : List ProcessType) (j : Job) (s : AsyncSystem) (r : Result ⊤)
    → AsyncReach (async_start ps j) s
    → s.caller ≡ Caller.returned r
    → (ends : List ProcessType) × Permᴰ ends ps
      × (((async_process (λ _ _. ends) ps).process j).0 ≡ r)
      × (r ≡ ok tt → s.shared ≡ ((async_process (λ _ _. ends) ps).process j).1)
AsyncReach-async_process ps j s r reach c =
    let o = outcome goroutine first_error no_error ps tt j s r reach c in
    let ends = o.ended ++ s.pending in
    let same = run_all-result ends j ∙ o.gives in
    (
      ends,
      o.all,
      same,
      λ fine.
          let (left, gathered) = run_all-effects ends j (same ∙ fine) in
          Outcome-effects goroutine first_error no_error ps tt j s r o tt gathered ∙ sym left,
    )

-- In every state of such a call the caller has returned or a step can follow, no run has more than two
-- steps for each process and one more, and from every state on the caller can return.
pub AsyncReach-returned :
    (ps : List ProcessType) (j : Job) (s : AsyncSystem) (reach : AsyncReach (async_start ps j) s)
    → (((r : Result ⊤) × (s.caller ≡ Caller.returned r)) ⊎ ((t : AsyncSystem) × AsyncStep s t))
      × (steps AsyncStep reach ≤ 2 * length ps + 1)
      × ((t : AsyncSystem) × AsyncReach s t × ((r : Result ⊤) × (t.caller ≡ Caller.returned r)))
AsyncReach-returned ps j s reach = (
  Reach-Step goroutine first_error no_error ps tt j s reach,
  omega (arith, Reach-rank goroutine first_error no_error reach),
  Reach-returned goroutine first_error no_error ps tt j s reach,
)
