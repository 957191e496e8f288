-- ===== src/Store/Gets/Invariant/Waiting.antt =====
-- The steps of the caller of a `Get` of several stores in imagestore/store.go keep the invariant.
use mathlib.Core.Path.{subst}
use mathlib.Core.List.{append_assoc}
use mandible.Base.{
  ℕ, zero, suc, ◌+◌, ◌≡◌, refl, ap, sym, ◌∙◌, inl, inr, true, List, [], ◌∷◌, ◌++◌, Option, none,
  some, length, length-append, arith,
}
use mandible.Base.Result.{Error, Result, ok, err}
use mandible.Store.Types.{StoreObject, Reader, World, ImageStore}
use mandible.Concurrent.Gather.{Caller}
use mandible.Store.Gets.{GetSystem}
use mandible.Store.Gets.Invariant.{last_error, last_error-append, Stage, Call, GetInv}

module _ {C : Type 0} (obj : StoreObject) (w : World C) (stores : List (ImageStore C)) where
  -- What the channel holds was sent by the goroutine that took the place.
  Stage-results :
      (s : GetSystem C) (given : List (ImageStore C)) (r : Option Reader)
      → Stage obj w stores s given
      → s.results ≡ some r
      → (s.done ≡ true) × (s.winner ≡ none)
  Stage-results s given r stage taken = elim stage [
    | inl (_, _, _, none_sent, _) ↦ absurd (cc (taken, none_sent))
    | inr (_, _, _, dn, _, _, _, inl (_, b)) ↦ absurd (cc (taken, b))
    | inr (_, _, _, dn, _, _, _, inr (inl (a, _))) ↦ (dn, a)
    | inr (_, _, _, dn, _, _, _, inr (inr (a, _, _))) ↦ (dn, a)
  ]

  -- The stage of a caller that waits does not say where it is.
  Stage-waiting :
      (s : GetSystem C) (es : List Error)
      (k : Caller (Result (Option Reader)) (Result (Option Reader))) (given : List (ImageStore C))
      (n : ℕ) (last : Result (Option Reader))
      → s.caller ≡ Caller.waiting n last
      → Stage obj w stores s given
      → Stage obj w stores (record s { errs = es; caller = k }) given
  Stage-waiting s es k given n last c stage = elim stage [
    | inl unsent ↦ inl unsent
    | inr (first, rest, q, dn, gv, gt, ln, place) ↦ elim place [
      | inl won ↦ inr (first, rest, q, dn, gv, gt, ln, inl won)
      | inr (inl sent) ↦ inr (first, rest, q, dn, gv, gt, ln, inr (inl sent))
      | inr (inr (_, _, gone)) ↦ absurd (cc (c, gone))
    ]
  ]

  -- A caller that waits has received all but that many messages, and keeps the last.
  pub Call-waiting :
      (s : GetSystem C) (received : List Error) (n : ℕ) (last : Result (Option Reader))
      → s.caller ≡ Caller.waiting n last
      → Call obj w stores s received
      → (last ≡ last_error (ok none) received) × (n + length received ≡ length stores)
  Call-waiting s received n last c call = elim call [
    | inl (m, c', count) ↦
        (cc (c, c'), subst (λ k. k + length received ≡ length stores) (cc (c, c')) count)
    | inr (inl (_, gone, _, _, _)) ↦ absurd (cc (c, gone))
    | inr (inr (gone, _)) ↦ absurd (cc (c, gone))
  ]

  pub GetInv-takes :
      (s : GetSystem C) (n : ℕ) (last : Result (Option Reader)) (r : Option Reader)
      → s.caller ≡ Caller.waiting (suc n) last
      → s.results ≡ some r
      → GetInv obj w stores s
      → GetInv obj w stores (record s { results = none; caller = Caller.returned (ok r) })
  GetInv-takes s n last r c taken inv =
      let (dn, won) = Stage-results s inv.given r inv.stage taken in
      record {
        failed = inv.failed;
        given = inv.given;
        received = inv.received;
        all = inv.all;
        fail = inv.fail;
        give = inv.give;
        sent = inv.sent;
        stage = elim inv.stage [
          | inl (_, _, _, none_sent, _) ↦ absurd (cc (taken, none_sent))
          | inr (first, rest, q, dn, gv, gt, ln, place) ↦ elim place [
            | inl (a, b) ↦ absurd (cc (taken, b))
            | inr (inl (a, b)) ↦ inr (
              first,
              rest,
              q,
              dn,
              gv,
              gt,
              ln,
              inr (inr (a, refl, ap (λ x. Caller.returned (ok x)) (cc (taken, b)))),
            )
            | inr (inr (a, b, _)) ↦ absurd (cc (taken, b))
          ]
        ];
        call = inr (inl (r, refl, dn, won, refl));
      }

  pub GetInv-receives :
      (s : GetSystem C) (n : ℕ) (last : Result (Option Reader)) (e : Error) (es : List Error)
      → s.caller ≡ Caller.waiting (suc n) last
      → s.errs ≡ e ∷ es
      → GetInv obj w stores s
      → GetInv obj w stores (record s { errs = es; caller = Caller.waiting n (err e) })
  GetInv-receives s n last e es c sent inv = record {
    failed = inv.failed;
    given = inv.given;
    received = inv.received ++ (e ∷ []);
    all = inv.all;
    fail = inv.fail;
    give = inv.give;
    sent =
        inv.sent ∙ (ap (λ l. inv.received ++ l) sent ∙ sym (append_assoc inv.received (e ∷ []) es));
    stage = Stage-waiting s es (Caller.waiting n (err e)) inv.given (suc n) last c inv.stage;
    call =
        let (_, count) = Call-waiting s inv.received (suc n) last c inv.call in
        inl (
          n,
          ap (Caller.waiting n) (sym (last_error-append (ok none) inv.received e)),
          omega (arith, count, length-append {0} inv.received (e ∷ [])),
        );
  }

  pub GetInv-returns :
      (s : GetSystem C) (last : Result (Option Reader))
      → s.caller ≡ Caller.waiting zero last
      → GetInv obj w stores s
      → GetInv obj w stores (record s { caller = Caller.returned last })
  GetInv-returns s last c inv = record {
    failed = inv.failed;
    given = inv.given;
    received = inv.received;
    all = inv.all;
    fail = inv.fail;
    give = inv.give;
    sent = inv.sent;
    stage = Stage-waiting s s.errs (Caller.returned last) inv.given zero last c inv.stage;
    call =
        let (same, count) = Call-waiting s inv.received zero last c inv.call in
        inr (inr (ap Caller.returned same, omega (arith, count)));
  }
