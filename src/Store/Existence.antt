-- ===== src/Store/Existence.antt =====
-- imagestore/store.go: the method `Exists` of MultiImageStore, with its goroutines and two channels,
-- which have room for all messages. The world does not change during a call.
pub mod Invariant
pub mod Orders
pub mod Progress
pub mod Taking
use mandible.Base.{ℕ, zero, suc, ◌≡◌, String, ◌<>◌, Bool, true, false, List, [], ◌∷◌, ◌++◌, length}
use mandible.Base.Result.{Error, Result, ok, err, ⊤}
use mandible.Store.Types.{StoreObject, World, ImageStore}
use mandible.Concurrent.Gather.{Caller}
use mandible.Concurrent.Runs.{Run}

-- The goroutines that have not ended, what the two channels hold, and the caller.
pub record ExistsSystem (C : Type 0) : Type 0 where
  pub pending : List (ImageStore C)
  pub errs : List Error
  pub results : List Bool
  pub caller : Caller ⊤ (Result Bool)

-- The message of a goroutine whose store fails.
abbrev pub unproven : {C : Type 0} → ImageStore C → Error → Error
unproven s e = "Error asynchronously proving existance for image on " <> (s.string <> (": " <> e))

module _ {C : Type 0} (obj : StoreObject) (w : World C) where
  -- A goroutine sends its error or its answer. The caller takes an error, a `true` or a `false` from
  -- one of the channels, or has taken as many as there are stores. Nothing follows a panic.
  pub data ExistsStep (s t : ExistsSystem C) : Type 0 where
    fails :
        (pre post : List (ImageStore C)) (store : ImageStore C) (e : Error)
        → s.pending ≡ pre ++ (store ∷ post)
        → store.exists obj w ≡ err e
        → t ≡ record s { pending = pre ++ post; errs = s.errs ++ (unproven store e ∷ []) }
        → ExistsStep s t
    answers :
        (pre post : List (ImageStore C)) (store : ImageStore C) (r : Bool)
        → s.pending ≡ pre ++ (store ∷ post)
        → store.exists obj w ≡ ok r
        → t ≡ record s { pending = pre ++ post; results = s.results ++ (r ∷ []) }
        → ExistsStep s t
    takes_error :
        (n : ℕ) (e : Error) (es : List Error)
        → s.caller ≡ Caller.waiting (suc n) tt
        → s.errs ≡ e ∷ es
        → t ≡ record s { errs = es; caller = Caller.returned (err e) }
        → ExistsStep s t
    takes_true :
        (n : ℕ) (rs : List Bool)
        → s.caller ≡ Caller.waiting (suc n) tt
        → s.results ≡ true ∷ rs
        → t ≡ record s { results = rs; caller = Caller.returned (ok true) }
        → ExistsStep s t
    takes_false :
        (n : ℕ) (rs : List Bool)
        → s.caller ≡ Caller.waiting (suc n) tt
        → s.results ≡ false ∷ rs
        → t ≡ record s { results = rs; caller = Caller.waiting n tt }
        → ExistsStep s t
    returns :
        s.caller ≡ Caller.waiting zero tt
        → t ≡ record s { caller = Caller.returned (ok false) }
        → ExistsStep s t

  abbrev pub ExistsReach : ExistsSystem C → ExistsSystem C → Type 0
  ExistsReach s t = Run ExistsStep s t

-- The goroutines of these stores have been started.
abbrev pub exists_start : {C : Type 0} → List (ImageStore C) → ExistsSystem C
exists_start stores = record {
  pending = stores;
  errs = [];
  results = [];
  caller = Caller.waiting (length stores) tt;
}
