-- ===== src/Concurrent/Gather/Invariant.antt =====
-- What holds in every state that the goroutines and their caller reach.
use mathlib.Core.Path.{subst}
use mathlib.Core.List.{Permᴰ, append_assoc}
use mathlib.Core.List.Permᴰ
use mandible.Base.{
  ℕ, zero, suc, ◌+◌, ◌≡◌, refl, ap, sym, ◌∙◌, ◌⊎◌, inl, inr, List, [], ◌∷◌, ◌++◌, length,
  length-append, arith, Sum-cases,
}
use mandible.Base.Permuted.{moved}
use mandible.Concurrent.Runs.{Run}
use mandible.Concurrent.Gather.{
  Caller, System, messages, effects, consume, result, reaction, Step, Reach, start,
}

module _ {S E M : Type 0} (act : E → S → M × S) where
  pub messages-append :
      (xs ys : List E) (s : S)
      → messages act (xs ++ ys) s ≡ messages act xs s ++ messages act ys (effects act xs s)
  unfolding messages effects
  messages-append [] ys s = refl
  messages-append (x ∷ xs) ys s = ap (λ l. (act x s).0 ∷ l) (messages-append xs ys (act x s).1)

  pub effects-append :
      (xs ys : List E) (s : S) → effects act (xs ++ ys) s ≡ effects act ys (effects act xs s)
  unfolding effects
  effects-append [] ys s = refl
  effects-append (x ∷ xs) ys s = effects-append xs ys (act x s).1

  pub length-messages : (xs : List E) (s : S) → length (messages act xs s) ≡ length xs
  unfolding messages
  length-messages [] s = refl
  length-messages (x ∷ xs) s = ap suc (length-messages xs (act x s).1)

module _ {M A R : Type 0} (react : A → M → R ⊎ A) where
  pub consume-inl :
      (a : A) (xs ys : List M) (r : R)
      → consume react a xs ≡ inl r
      → consume react a (xs ++ ys) ≡ inl r
  unfolding consume
  consume-inl a [] ys r h = absurd (cc)
  consume-inl a (x ∷ xs) ys r h = elim (Sum-cases (react a x)) [
    | inl (r', e) ↦ ground arith
    | inr (a', e) ↦ ground (arith, consume-inl a' xs ys r)
  ]

  consume-inr :
      (a a' : A) (xs ys : List M)
      → consume react a xs ≡ inr a'
      → consume react a (xs ++ ys) ≡ consume react a' ys
  unfolding consume
  consume-inr a a' [] ys h = ground arith
  consume-inr a a' (x ∷ xs) ys h = elim (Sum-cases (react a x)) [
    | inl (r', e) ↦ absurd (ground arith)
    | inr (b, e) ↦ ground (arith, consume-inr b a' xs ys)
  ]

  consume-one : (a : A) (x : M) → consume react a (x ∷ []) ≡ react a x
  unfolding consume
  consume-one a x = elim (Sum-cases (react a x)) [
    | inl (r, e) ↦ ground arith
    | inr (a', e) ↦ ground arith
  ]

module _ {S E M A R : Type 0} (act : E → S → M × S) (react : A → M → R ⊎ A) (finish : A → R)
    (tasks : List E) (a₀ : A) (s₀ : S) where
  -- Where the caller stands after these messages.
  abbrev pub Stands : Caller A R → List M → Type 0
  Stands (Caller.waiting n a) received =
      (consume react a₀ received ≡ inr a) × (n + length received ≡ length tasks)
  Stands (Caller.returned r) received =
      (consume react a₀ received ≡ inl r)
      ⊎ ((result finish (consume react a₀ received) ≡ r) × (length received ≡ length tasks))

  -- The tasks that have ended, in that order, and the messages act that have been received.
  pub record Inv (s : System S E M A R) : Type 0 where
    pub ended : List E
    pub received : List M
    pub all : Permᴰ (ended ++ s.pending) tasks
    pub sent : messages act ended s₀ ≡ received ++ s.channel
    pub left : s.shared ≡ effects act ended s₀
    pub stands : Stands s.caller received

  Inv-start : Inv (start act react finish tasks a₀ s₀)
  unfolding messages effects consume
  Inv-start = record {
    ended = [];
    received = [];
    all = Permᴰ.refl tasks;
    sent = refl;
    left = refl;
    stands = (refl, omega arith);
  }

  Inv-ends :
      (s : System S E M A R) (pre post : List E) (task : E)
      → s.pending ≡ pre ++ (task ∷ post)
      → Inv s
      → Inv (record {
        pending = pre ++ post;
        channel = s.channel ++ ((act task s.shared).0 ∷ []);
        shared = (act task s.shared).1;
        caller = s.caller;
      })
  unfolding messages effects
  Inv-ends s pre post task e inv = record {
    ended = inv.ended ++ (task ∷ []);
    received = inv.received;
    all =
        Permᴰ.trans (moved inv.ended pre post task)
          (subst (λ l. Permᴰ (inv.ended ++ l) tasks) e inv.all);
    sent =
        messages-append act inv.ended (task ∷ []) s₀
        ∙ (ap (λ l. l ++ ((act task (effects act inv.ended s₀)).0 ∷ [])) inv.sent
            ∙ (ap (λ h. inv.received ++ s.channel ++ ((act task h).0 ∷ [])) (sym inv.left)
                ∙ append_assoc inv.received s.channel ((act task s.shared).0 ∷ [])));
    left = ap (λ h. (act task h).1) inv.left ∙ sym (effects-append act inv.ended (task ∷ []) s₀);
    stands = inv.stands;
  }

  Inv-receives :
      (s : System S E M A R) (n : ℕ) (a : A) (x : M) (xs : List M)
      → s.caller ≡ Caller.waiting (suc n) a
      → s.channel ≡ x ∷ xs
      → Inv s
      → Inv (record s { channel = xs; caller = reaction n (react a x) })
  Inv-receives s n a x xs c e inv = record {
    ended = inv.ended;
    received = inv.received ++ (x ∷ []);
    all = inv.all;
    sent = inv.sent ∙ (ap (λ l. inv.received ++ l) e ∙ sym (append_assoc inv.received (x ∷ []) xs));
    left = inv.left;
    stands =
        let (gathered, count) = subst (λ k. Stands k inv.received) c inv.stands in
        let now = consume-inr react a₀ a inv.received (x ∷ []) gathered ∙ consume-one react a x in
        elim (Sum-cases (react a x)) [
          | inl (r, f) ↦ rw f (inl (now ∙ f))
          | inr (b, f) ↦
              rw f (now ∙ f, omega (arith, count, length-append {0} inv.received (x ∷ [])))
        ];
  }

  Inv-returns :
      (s : System S E M A R) (a : A)
      → s.caller ≡ Caller.waiting zero a
      → Inv s
      → Inv (record s { caller = Caller.returned (finish a) })
  Inv-returns s a c inv = record {
    ended = inv.ended;
    received = inv.received;
    all = inv.all;
    sent = inv.sent;
    left = inv.left;
    stands =
        let (gathered, count) = subst (λ k. Stands k inv.received) c inv.stands in
        inr (ap (result finish) gathered, omega (arith, count));
  }

  Step-Inv : {s t : System S E M A R} → Step act react finish s t → Inv s → Inv t
  Step-Inv {s} {t} (Step.ends pre post task e f) inv =
      subst Inv (sym f) (Inv-ends s pre post task e inv)
  Step-Inv {s} {t} (Step.receives n a x xs c e f) inv =
      subst Inv (sym f) (Inv-receives s n a x xs c e inv)
  Step-Inv {s} {t} (Step.returns a c f) inv = subst Inv (sym f) (Inv-returns s a c inv)

  -- Every state that is reached after the goroutines have been started has a record of what has ended
  -- and what has been received, by which the caller stands where its loop leaves it.
  pub Reach-Inv :
      {s : System S E M A R} → Reach act react finish (start act react finish tasks a₀ s₀) s → Inv s
  Reach-Inv Run.here = Inv-start
  Reach-Inv (Run.next r st) = Step-Inv st (Reach-Inv r)
