-- ===== src/Store/Gets.antt =====
-- imagestore/store.go: the method `Get` of MultiImageStore, with its goroutines and three channels.
-- The world does not change during a call.
pub mod Invariant
pub mod Orders
pub mod Progress
pub mod Readers
use mandible.Base.{
  ℕ, zero, suc, ◌≡◌, String, ◌<>◌, Bool, true, false, List, [], ◌∷◌, ◌++◌, Option, none, some,
  length,
}
use mandible.Base.Result.{Error, Result, ok, err}
use mandible.Store.Types.{StoreObject, Reader, World, ImageStore}
use mandible.Concurrent.Gather.{Caller}
use mandible.Concurrent.Runs.{Run}

-- `done` says whether its one place is taken, `winner` is the reader of the goroutine that took it
-- and has not sent it yet, `results` what the channel holds, and `closed` counts the readers that
-- have been closed. The caller keeps the error that it received last.
pub record GetSystem (C : Type 0) : Type 0 where
  pub pending : List (ImageStore C)
  pub errs : List Error
  pub done : Bool
  pub winner : Option (Option Reader)
  pub results : Option (Option Reader)
  pub closed : ℕ
  pub caller : Caller (Result (Option Reader)) (Result (Option Reader))

-- The message of a goroutine whose store fails.
abbrev pub loss : {C : Type 0} → ImageStore C → Error → Error
loss s e = "Error asynchronously getting image on " <> (s.string <> (": " <> e))

module _ {C : Type 0} (obj : StoreObject) (w : World C) where
  -- A goroutine sends its error; is the first to have a reader; sends the reader; or closes it, as it
  -- is not the first. The caller takes the reader or an error, or has received errors only. Nothing
  -- follows a panic, and a nil reader that has to be closed is one.
  pub data GetStep (s t : GetSystem C) : Type 0 where
    fails :
        (pre post : List (ImageStore C)) (store : ImageStore C) (e : Error)
        → s.pending ≡ pre ++ (store ∷ post)
        → store.get obj w ≡ err e
        → t ≡ record s { pending = pre ++ post; errs = s.errs ++ (loss store e ∷ []) }
        → GetStep s t
    wins :
        (pre post : List (ImageStore C)) (store : ImageStore C) (r : Option Reader)
        → s.pending ≡ pre ++ (store ∷ post)
        → store.get obj w ≡ ok r
        → s.done ≡ false
        → t ≡ record s { pending = pre ++ post; done = true; winner = some r }
        → GetStep s t
    closes :
        (pre post : List (ImageStore C)) (store : ImageStore C) (r : Reader)
        → s.pending ≡ pre ++ (store ∷ post)
        → store.get obj w ≡ ok (some r)
        → s.done ≡ true
        → t ≡ record s { pending = pre ++ post; closed = suc s.closed }
        → GetStep s t
    sends :
        (r : Option Reader)
        → s.winner ≡ some r
        → s.results ≡ none
        → t ≡ record s { winner = none; results = some r }
        → GetStep s t
    takes :
        (n : ℕ) (last : Result (Option Reader)) (r : Option Reader)
        → s.caller ≡ Caller.waiting (suc n) last
        → s.results ≡ some r
        → t ≡ record s { results = none; caller = Caller.returned (ok r) }
        → GetStep s t
    receives :
        (n : ℕ) (last : Result (Option Reader)) (e : Error) (es : List Error)
        → s.caller ≡ Caller.waiting (suc n) last
        → s.errs ≡ e ∷ es
        → t ≡ record s { errs = es; caller = Caller.waiting n (err e) }
        → GetStep s t
    returns :
        (last : Result (Option Reader))
        → s.caller ≡ Caller.waiting zero last
        → t ≡ record s { caller = Caller.returned last }
        → GetStep s t

  abbrev pub GetReach : GetSystem C → GetSystem C → Type 0
  GetReach s t = Run GetStep s t

-- The goroutines of these stores have been started.
abbrev pub get_start : {C : Type 0} → List (ImageStore C) → GetSystem C
get_start stores = record {
  pending = stores;
  errs = [];
  done = false;
  winner = none;
  results = none;
  closed = 0;
  caller = Caller.waiting (length stores) (ok none);
}
