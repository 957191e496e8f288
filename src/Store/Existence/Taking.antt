-- ===== src/Store/Existence/Taking.antt =====
-- The caller of an `Exists` of several stores in imagestore/store.go keeps the invariant.
use mathlib.Core.Path.{subst}
use mathlib.Core.List.{Permᴰ, append_assoc}
use mandible.Base.{
  ℕ, zero, suc, ◌≡◌, refl, ap, sym, ◌∙◌, List, [], ◌∷◌, ◌++◌, length-append, true, false, Bool, All,
  All-append, arith, nil-of_length,
}
use mandible.Base.Permuted.{length-Permᴰ, moved}
use mandible.Base.Result.{Error, ok, err}
use mandible.Store.Types.{StoreObject, World, ImageStore}
use mandible.Store.Multi.{exists_any}
use mandible.Concurrent.Gather.{Caller}
use mandible.Store.Existence.{ExistsSystem, unproven}
use mandible.Store.Existence.Invariant.{Failed, Answered, Denies, Waits, Decided}

module _ {C : Type 0} (obj : StoreObject) (w : World C) where
  -- The stores that answer `false` do not decide.
  exists_any-Denies :
      (denied rest : List (ImageStore C))
      → All (Denies obj w) denied
      → exists_any (denied ++ rest) obj w ≡ exists_any rest obj w
  unfolding exists_any
  exists_any-Denies [] rest all = refl
  exists_any-Denies (s ∷ denied) rest (g, all) = rw g (exists_any-Denies denied rest all)

module _ {C : Type 0} (obj : StoreObject) (w : World C) (stores : List (ImageStore C)) where
  -- Someone has sent what waits in a channel.
  Failed-cons :
      (failed : List (ImageStore C)) (m : Error) (ms : List Error)
      → Failed obj w failed (m ∷ ms)
      → (store : ImageStore C) × (rest : List (ImageStore C)) × (failed ≡ store ∷ rest)
        × ((e : Error) × (store.exists obj w ≡ err e) × (m ≡ unproven store e))
        × Failed obj w rest ms
  Failed-cons [] m ms h = elim h [ ]
  Failed-cons (store ∷ rest) m ms (h, hs) = (store, rest, refl, h, hs)

  Answered-cons :
      (answered : List (ImageStore C)) (r : Bool) (rs : List Bool)
      → Answered obj w answered (r ∷ rs)
      → (store : ImageStore C) × (rest : List (ImageStore C)) × (answered ≡ store ∷ rest)
        × (store.exists obj w ≡ ok r)
        × Answered obj w rest rs
  Answered-cons [] r rs h = elim h [ ]
  Answered-cons (store ∷ rest) r rs (h, hs) = (store, rest, refl, h, hs)

  exists_any-err :
      (store : ImageStore C) (rest : List (ImageStore C)) (e : Error)
      → store.exists obj w ≡ err e
      → exists_any (store ∷ rest) obj w ≡ err (unproven store e)
  unfolding exists_any
  exists_any-err store rest e g = rw g refl

  exists_any-true :
      (store : ImageStore C) (rest : List (ImageStore C))
      → store.exists obj w ≡ ok true
      → exists_any (store ∷ rest) obj w ≡ ok true
  unfolding exists_any
  exists_any-true store rest g = rw g refl

  pub Decided-error :
      (s : ExistsSystem C) (m : Error) (es : List Error)
      → s.errs ≡ m ∷ es
      → Waits obj w stores s
      → Decided obj w stores (record s { errs = es; caller = Caller.returned (err m) })
  Decided-error s m es sent inv =
      let (store, rest, f, (e, g, same), _) =
        Failed-cons inv.failed m es (subst (Failed obj w inv.failed) sent inv.sent_errors) in
      let others = rest ++ (inv.answered ++ s.pending) in
      (
        err m,
        refl,
        inv.denied ++ (store ∷ others),
        subst (λ l. Permᴰ (inv.denied ++ (l ++ (inv.answered ++ s.pending))) stores) f inv.all,
        exists_any-Denies obj w inv.denied (store ∷ others) inv.denies
            ∙ (exists_any-err store others e g ∙ ap err (sym same)),
      )

  -- The answer that is taken from the channel, put before the errors.
  taken-Permᴰ :
      (s : ExistsSystem C) (inv : (Waits obj w stores) s) (store : ImageStore C)
      (rest : List (ImageStore C))
      → inv.answered ≡ store ∷ rest
      → Permᴰ (inv.denied ++ (store ∷ []) ++ (inv.failed ++ (rest ++ s.pending))) stores
  taken-Permᴰ s inv store rest f =
      Permᴰ.trans (moved inv.denied inv.failed (rest ++ s.pending) store)
        (subst (λ l. Permᴰ (inv.denied ++ (inv.failed ++ (l ++ s.pending))) stores) f inv.all)

  pub Decided-true :
      (s : ExistsSystem C) (rs : List Bool)
      → s.results ≡ true ∷ rs
      → Waits obj w stores s
      → Decided obj w stores (record s { results = rs; caller = Caller.returned (ok true) })
  Decided-true s rs sent inv =
      let (store, rest, f, g, _) =
        Answered-cons inv.answered true rs
          (subst (Answered obj w inv.answered) sent inv.sent_answers) in
      let others = inv.failed ++ (rest ++ s.pending) in
      (
        ok true,
        refl,
        inv.denied ++ (store ∷ []) ++ others,
        taken-Permᴰ s inv store rest f,
        ap (λ l. exists_any l obj w) (append_assoc inv.denied (store ∷ []) others)
            ∙ (exists_any-Denies obj w inv.denied (store ∷ others) inv.denies
                ∙ exists_any-true store others g),
      )

  pub Waits-false :
      (s : ExistsSystem C) (n : ℕ) (rs : List Bool)
      → s.caller ≡ Caller.waiting (suc n) tt
      → s.results ≡ false ∷ rs
      → Waits obj w stores s
      → Waits obj w stores (record s { results = rs; caller = Caller.waiting n tt })
  Waits-false s n rs c sent inv =
      let (store, rest, f, g, more) =
        Answered-cons inv.answered false rs
          (subst (Answered obj w inv.answered) sent inv.sent_answers) in
      record {
        left = n;
        denied = inv.denied ++ (store ∷ []);
        failed = inv.failed;
        answered = rest;
        waiting = refl;
        all = taken-Permᴰ s inv store rest f;
        denies = All-append (Denies obj w) inv.denied (store ∷ []) inv.denies (g, tt);
        sent_errors = inv.sent_errors;
        sent_answers = more;
        count =
            let same : suc n ≡ inv.left = cc (c, inv.waiting) in
            omega (arith, same, inv.count, length-append {0} inv.denied (store ∷ []));
      }

  pub Decided-false :
      (s : ExistsSystem C)
      → s.caller ≡ Caller.waiting zero tt
      → Waits obj w stores s
      → Decided obj w stores (record s { caller = Caller.returned (ok false) })
  unfolding exists_any
  Decided-false s c inv =
      let others = inv.failed ++ (inv.answered ++ s.pending) in
      let same : zero ≡ inv.left = cc (c, inv.waiting) in
      let none_left : others ≡ [] = nil-of_length others (
        omega
          (arith, same, inv.count, length-Permᴰ inv.all, length-append {0} inv.denied others)) in
      (
        ok false,
        refl,
        inv.denied ++ others,
        inv.all,
        exists_any-Denies obj w inv.denied others inv.denies
            ∙ ap (λ l. exists_any l obj w) none_left,
      )
