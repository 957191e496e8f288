-- ===== src/Store/Gets/Invariant.antt =====
-- What holds in every state that a `Get` of several stores in imagestore/store.go reaches.
pub mod Goroutines
pub mod Waiting
pub mod Reached
use mathlib.Core.Path.{subst}
use mathlib.Core.List.{Permᴰ, append_assoc, append-nil, map-append}
use mathlib.Core.List.Permᴰ
use mandible.Base.{
  ℕ, zero, suc, ◌+◌, ◌≡◌, refl, ap, sym, ◌∙◌, ◌⊎◌, inl, inr, String, ◌<>◌, Bool, true, false, List,
  [], ◌∷◌, ◌++◌, map, Option, none, some, length, length-append, All, All-append, arith,
}
use mandible.Base.Permuted.{moved, moved_past}
use mandible.Base.Result.{Error, Result, ok, err, panic}
use mandible.Store.Types.{StoreObject, Reader, World, ImageStore}
use mandible.Concurrent.Gather.{Caller}
use mandible.Store.Gets.{GetSystem, loss, GetStep, GetReach, get_start}

-- The error that was received last, if any was.
unfoldable pub last_error : Result (Option Reader) → List Error → Result (Option Reader)
last_error last [] = last
last_error last (e ∷ es) = last_error (err e) es

pub last_error-append :
    (last : Result (Option Reader)) (es : List Error) (e : Error)
    → last_error last (es ++ (e ∷ [])) ≡ err e
unfolding last_error
last_error-append last [] e = refl
last_error-append last (x ∷ es) e = last_error-append (err x) es e

module _ {C : Type 0} (obj : StoreObject) (w : World C) (stores : List (ImageStore C)) where
  -- The message of a store that fails.
  abbrev pub loss_of : ImageStore C → Error
  loss_of store = elim (store.get obj w) [ err e ↦ loss store e | ok _ ↦ "" | panic ↦ "" ]

  abbrev pub Fails : ImageStore C → Type 0
  Fails store = (e : Error) × (store.get obj w ≡ err e)

  abbrev pub Gives : ImageStore C → Type 0
  Gives store = (r : Option Reader) × (store.get obj w ≡ ok r)

  -- No goroutine has a reader yet; or the first one that had it has not sent it, has sent it, or it
  -- is what the caller returned, and the readers of all others have been closed.
  abbrev pub Stage : GetSystem C → List (ImageStore C) → Type 0
  Stage s given =
      ((s.done ≡ false) × (given ≡ []) × (s.winner ≡ none) × (s.results ≡ none) × (s.closed ≡ 0))
      ⊎ ((first : ImageStore C) × (rest : List (ImageStore C)) × (r : Option Reader) × (s.done
            ≡ true)
          × (given ≡ first ∷ rest)
          × (first.get obj w ≡ ok r)
          × (length rest ≡ s.closed)
          × (((s.winner ≡ some r) × (s.results ≡ none))
              ⊎ (((s.winner ≡ none) × (s.results ≡ some r))
                  ⊎ ((s.winner ≡ none)
                      × (s.results ≡ none)
                      × (s.caller ≡ Caller.returned (ok r))))))

  -- The caller waits for the messages that are left, has returned a reader, or has received an error
  -- of every store.
  abbrev pub Call : GetSystem C → List Error → Type 0
  Call s received =
      ((n : ℕ) × (s.caller ≡ Caller.waiting n (last_error (ok none) received))
        × (n + length received ≡ length stores))
      ⊎ (((r : Option Reader) × (s.caller ≡ Caller.returned (ok r))
            × (s.done ≡ true)
            × (s.winner ≡ none)
            × (s.results ≡ none))
          ⊎ ((s.caller ≡ Caller.returned (last_error (ok none) received))
              × (length received ≡ length stores)))

  -- The stores that have failed, in that order, those that have given a reader, and the errors that
  -- have been received.
  pub record GetInv (s : GetSystem C) : Type 0 where
    pub failed : List (ImageStore C)
    pub given : List (ImageStore C)
    pub received : List Error
    pub all : Permᴰ (failed ++ (given ++ s.pending)) stores
    pub fail : All Fails failed
    pub give : All Gives given
    pub sent : map loss_of failed ≡ received ++ s.errs
    pub stage : Stage s given
    pub call : Call s received

  pub loss_of-loss :
      (store : ImageStore C) (e : Error) → store.get obj w ≡ err e → loss_of store ≡ loss store e
  loss_of-loss store e g = rw (loss_of, g) refl

  pub GetInv-start : GetInv (get_start stores)
  unfolding last_error
  GetInv-start = record {
    failed = [];
    given = [];
    received = [];
    all = Permᴰ.refl stores;
    fail = tt;
    give = tt;
    sent = refl;
    stage = inl (refl, refl, refl, refl, refl);
    call = inl (length stores, refl, omega arith);
  }
