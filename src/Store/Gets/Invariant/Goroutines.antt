-- ===== src/Store/Gets/Invariant/Goroutines.antt =====
-- The steps of the goroutines of a `Get` of several stores in imagestore/store.go keep the invariant.
use mathlib.Core.Path.{subst}
use mathlib.Core.List.{Permᴰ, append_assoc, map-append}
use mathlib.Core.List.Permᴰ
use mandible.Base.{
  suc, ◌≡◌, refl, ap, sym, ◌∙◌, inl, inr, true, false, List, [], ◌∷◌, ◌++◌, Option, none, some,
  length-append, All-append, arith,
}
use mandible.Base.Permuted.{moved, moved_past}
use mandible.Base.Result.{Error, ok, err}
use mandible.Store.Types.{StoreObject, Reader, World, ImageStore}
use mandible.Store.Gets.{GetSystem, loss}
use mandible.Store.Gets.Invariant.{loss_of, Fails, Gives, GetInv, loss_of-loss}

module _ {C : Type 0} (obj : StoreObject) (w : World C) (stores : List (ImageStore C)) where
  -- A goroutine that fails.
  pub GetInv-fails :
      (s : GetSystem C) (pre post : List (ImageStore C)) (store : ImageStore C) (e : Error)
      → s.pending ≡ pre ++ (store ∷ post)
      → store.get obj w ≡ err e
      → GetInv obj w stores s
      → (GetInv obj w stores)
          (record s { pending = pre ++ post; errs = s.errs ++ (loss store e ∷ []) })
  GetInv-fails s pre post store e p g inv = record {
    failed = inv.failed ++ (store ∷ []);
    given = inv.given;
    received = inv.received;
    all =
        Permᴰ.trans (moved_past inv.failed inv.given pre post store)
          (subst (λ l. Permᴰ (inv.failed ++ (inv.given ++ l)) stores) p inv.all);
    fail = All-append (Fails obj w stores) inv.failed (store ∷ []) inv.fail ((e, g), tt);
    give = inv.give;
    sent =
        map-append (loss_of obj w stores) inv.failed (store ∷ [])
        ∙ (ap (λ l. l ++ (loss_of obj w stores store ∷ [])) inv.sent
            ∙ (append_assoc inv.received s.errs (loss_of obj w stores store ∷ [])
                ∙ ap (λ x. inv.received ++ (s.errs ++ (x ∷ [])))
                    (loss_of-loss obj w stores store e g)));
    stage = inv.stage;
    call = inv.call;
  }

  pub GetInv-wins :
      (s : GetSystem C) (pre post : List (ImageStore C)) (store : ImageStore C) (r : Option Reader)
      → s.pending ≡ pre ++ (store ∷ post)
      → store.get obj w ≡ ok r
      → s.done ≡ false
      → GetInv obj w stores s
      → GetInv obj w stores (record s { pending = pre ++ post; done = true; winner = some r })
  GetInv-wins s pre post store r p g d inv = record {
    failed = inv.failed;
    given = inv.given ++ (store ∷ []);
    received = inv.received;
    all =
        Permᴰ.trans (Permᴰ.append_left inv.failed (moved inv.given pre post store))
          (subst (λ l. Permᴰ (inv.failed ++ (inv.given ++ l)) stores) p inv.all);
    fail = inv.fail;
    give = All-append (Gives obj w stores) inv.given (store ∷ []) inv.give ((r, g), tt);
    sent = inv.sent;
    stage = elim inv.stage [
      | inl (_, gv, _, rs, cl) ↦
          inr (store, [], r, refl, ap (λ l. l ++ (store ∷ [])) gv, g, sym cl, inl (refl, rs))
      | inr (_, _, _, dn, _, _, _, _) ↦ absurd (cc (d, dn))
    ];
    call = elim inv.call [
      | inl waits ↦ inl waits
      | inr (inl (_, _, dn, _, _)) ↦ absurd (cc (d, dn))
      | inr (inr lost) ↦ inr (inr lost)
    ];
  }

  pub GetInv-closes :
      (s : GetSystem C) (pre post : List (ImageStore C)) (store : ImageStore C) (r : Reader)
      → s.pending ≡ pre ++ (store ∷ post)
      → store.get obj w ≡ ok (some r)
      → s.done ≡ true
      → GetInv obj w stores s
      → GetInv obj w stores (record s { pending = pre ++ post; closed = suc s.closed })
  GetInv-closes s pre post store r p g d inv = record {
    failed = inv.failed;
    given = inv.given ++ (store ∷ []);
    received = inv.received;
    all =
        Permᴰ.trans (Permᴰ.append_left inv.failed (moved inv.given pre post store))
          (subst (λ l. Permᴰ (inv.failed ++ (inv.given ++ l)) stores) p inv.all);
    fail = inv.fail;
    give = All-append (Gives obj w stores) inv.given (store ∷ []) inv.give ((some r, g), tt);
    sent = inv.sent;
    stage = elim inv.stage [
      | inl (open_still, _, _, _, _) ↦ absurd (cc (d, open_still))
      | inr (first, rest, q, dn, gv, gt, ln, place) ↦ inr (
        first,
        rest ++ (store ∷ []),
        q,
        dn,
        ap (λ l. l ++ (store ∷ [])) gv,
        gt,
        omega (arith, ln, length-append {0} rest (store ∷ [])),
        place,
      )
    ];
    call = inv.call;
  }

  pub GetInv-sends :
      (s : GetSystem C) (r : Option Reader)
      → s.winner ≡ some r
      → s.results ≡ none
      → GetInv obj w stores s
      → GetInv obj w stores (record s { winner = none; results = some r })
  GetInv-sends s r won empty inv = record {
    failed = inv.failed;
    given = inv.given;
    received = inv.received;
    all = inv.all;
    fail = inv.fail;
    give = inv.give;
    sent = inv.sent;
    stage = elim inv.stage [
      | inl (_, _, none_won, _, _) ↦ absurd (cc (won, none_won))
      | inr (first, rest, q, dn, gv, gt, ln, place) ↦ elim place [
        | inl (a, b) ↦ inr (first, rest, q, dn, gv, gt, ln, inr (inl (refl, cc (won, a))))
        | inr (inl (a, b)) ↦ absurd (cc (won, a))
        | inr (inr (a, b, c)) ↦ absurd (cc (won, a))
      ]
    ];
    call = elim inv.call [
      | inl waits ↦ inl waits
      | inr (inl (_, _, _, a, _)) ↦ absurd (cc (won, a))
      | inr (inr lost) ↦ inr (inr lost)
    ];
  }
