-- ===== src/Store/Existence/Invariant.antt =====
-- What holds in every state that an `Exists` of several stores in imagestore/store.go reaches.
use mathlib.Core.Path.{subst}
use mathlib.Core.List.{Permᴰ}
use mathlib.Core.List.Permᴰ
use mandible.Base.{ℕ, ◌+◌, ◌≡◌, refl, ◌⊎◌, List, [], ◌∷◌, ◌++◌, length, false, Bool, All, arith}
use mandible.Base.Permuted.{moved, moved_past}
use mandible.Base.Result.{Error, Result, ok, err}
use mandible.Store.Types.{StoreObject, World, ImageStore}
use mandible.Store.Multi.{exists_any}
use mandible.Concurrent.Gather.{Caller}
use mandible.Store.Existence.{ExistsSystem, unproven, exists_start}

module _ {C : Type 0} (obj : StoreObject) (w : World C) where
  -- These stores have sent these messages, in this order.
  abbrev pub Failed : List (ImageStore C) → List Error → Type 0
  Failed [] [] = Unit
  Failed [] (_ ∷ _) = ⊥
  Failed (_ ∷ _) [] = ⊥
  Failed (store ∷ stores) (m ∷ ms) =
      ((e : Error) × (store.exists obj w ≡ err e) × (m ≡ unproven store e)) × Failed stores ms

  abbrev pub Answered : List (ImageStore C) → List Bool → Type 0
  Answered [] [] = Unit
  Answered [] (_ ∷ _) = ⊥
  Answered (_ ∷ _) [] = ⊥
  Answered (store ∷ stores) (r ∷ rs) = (store.exists obj w ≡ ok r) × Answered stores rs

  Failed-append :
      (stores : List (ImageStore C)) (ms : List Error) (store : ImageStore C) (e : Error)
      → Failed stores ms
      → store.exists obj w ≡ err e
      → Failed (stores ++ (store ∷ [])) (ms ++ (unproven store e ∷ []))
  Failed-append [] (m ∷ ms) store e h g = elim h [ ]
  Failed-append (s ∷ stores) [] store e h g = elim h [ ]
  Failed-append [] [] store e h g = ((e, g, refl), tt)
  Failed-append (s ∷ stores) (m ∷ ms) store e (h, hs) g = (h, Failed-append stores ms store e hs g)

  Answered-append :
      (stores : List (ImageStore C)) (rs : List Bool) (store : ImageStore C) (r : Bool)
      → Answered stores rs
      → store.exists obj w ≡ ok r
      → Answered (stores ++ (store ∷ [])) (rs ++ (r ∷ []))
  Answered-append [] (q ∷ rs) store r h g = elim h [ ]
  Answered-append (s ∷ stores) [] store r h g = elim h [ ]
  Answered-append [] [] store r h g = (g, tt)
  Answered-append (s ∷ stores) (q ∷ rs) store r (h, hs) g =
      (h, Answered-append stores rs store r hs g)

  abbrev pub Denies : ImageStore C → Type 0
  Denies store = store.exists obj w ≡ ok false

module _ {C : Type 0} (obj : StoreObject) (w : World C) (stores : List (ImageStore C)) where
  -- The caller waits: the stores whose `false` it has taken, those whose messages wait in the
  -- channels, and those that have not ended are all.
  pub record Waits (s : ExistsSystem C) : Type 0 where
    pub left : ℕ
    pub denied : List (ImageStore C)
    pub failed : List (ImageStore C)
    pub answered : List (ImageStore C)
    pub waiting : s.caller ≡ Caller.waiting left tt
    pub all : Permᴰ (denied ++ (failed ++ (answered ++ s.pending))) stores
    pub denies : All (Denies obj w) denied
    pub sent_errors : Failed obj w failed s.errs
    pub sent_answers : Answered obj w answered s.results
    pub count : left + length denied ≡ length stores

  -- The caller has returned what the stores give that are asked in some order.
  abbrev pub Decided : ExistsSystem C → Type 0
  Decided s =
      (x : Result Bool) × (s.caller ≡ Caller.returned x)
      × (ends : List (ImageStore C)) × Permᴰ ends stores
      × (exists_any ends obj w ≡ x)

  abbrev pub ExistsInv : ExistsSystem C → Type 0
  ExistsInv s = Waits s ⊎ Decided s

  pub Waits-start : Waits (exists_start stores)
  Waits-start = record {
    left = length stores;
    denied = [];
    failed = [];
    answered = [];
    waiting = refl;
    all = Permᴰ.refl stores;
    denies = tt;
    sent_errors = tt;
    sent_answers = tt;
    count = omega arith;
  }

  pub Waits-fails :
      (s : ExistsSystem C) (pre post : List (ImageStore C)) (store : ImageStore C) (e : Error)
      → s.pending ≡ pre ++ (store ∷ post)
      → store.exists obj w ≡ err e
      → Waits s
      → Waits (record s { pending = pre ++ post; errs = s.errs ++ (unproven store e ∷ []) })
  Waits-fails s pre post store e p g inv = record {
    left = inv.left;
    denied = inv.denied;
    failed = inv.failed ++ (store ∷ []);
    answered = inv.answered;
    waiting = inv.waiting;
    all =
        Permᴰ.trans
          (Permᴰ.append_left inv.denied (moved_past inv.failed inv.answered pre post store))
          (subst (λ l. Permᴰ (inv.denied ++ (inv.failed ++ (inv.answered ++ l))) stores) p inv.all);
    denies = inv.denies;
    sent_errors = Failed-append obj w inv.failed s.errs store e inv.sent_errors g;
    sent_answers = inv.sent_answers;
    count = inv.count;
  }

  pub Waits-answers :
      (s : ExistsSystem C) (pre post : List (ImageStore C)) (store : ImageStore C) (r : Bool)
      → s.pending ≡ pre ++ (store ∷ post)
      → store.exists obj w ≡ ok r
      → Waits s
      → Waits (record s { pending = pre ++ post; results = s.results ++ (r ∷ []) })
  Waits-answers s pre post store r p g inv = record {
    left = inv.left;
    denied = inv.denied;
    failed = inv.failed;
    answered = inv.answered ++ (store ∷ []);
    waiting = inv.waiting;
    all =
        Permᴰ.trans
          (Permᴰ.append_left inv.denied
            (Permᴰ.append_left inv.failed (moved inv.answered pre post store)))
          (subst (λ l. Permᴰ (inv.denied ++ (inv.failed ++ (inv.answered ++ l))) stores) p inv.all);
    denies = inv.denies;
    sent_errors = inv.sent_errors;
    sent_answers = Answered-append obj w inv.answered s.results store r inv.sent_answers g;
    count = inv.count;
  }
