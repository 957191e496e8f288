-- ===== src/Concurrent/Gather/Progress.antt =====
-- The caller of the goroutines always returns, and with what.
use mathlib.Core.Path.{subst}
use mathlib.Core.List.{Permᴰ, append_assoc, append-nil}
use mandible.Base.{
  ℕ, zero, suc, ◌+◌, ◌*◌, ◌≤◌, ◌<◌, ◌≡◌, refl, ap, sym, ◌∙◌, ◌⊎◌, inl, inr, List, [], ◌∷◌, ◌++◌,
  length, length-append, arith, List-cases, nil-of_length,
}
use mandible.Base.Permuted.{length-Permᴰ}
use mandible.Concurrent.Runs.{steps, steps-rank, ends_lem}
use mandible.Concurrent.Gather.{
  Caller, Caller-cases, open_call, System, messages, effects, consume, result, reaction, Step,
  Reach, start,
}
use mandible.Concurrent.Gather.Invariant.{
  Stands, Inv, Reach-Inv, messages-append, length-messages, consume-inl,
}

-- What follows a list in another one of its length is empty.
rest-nil : {A : Type 0} (xs ys : List A) → length (xs ++ ys) ≡ length xs → ys ≡ []
rest-nil xs [] h = refl
rest-nil xs (y ∷ ys) h = absurd (omega (arith, h, length-append {0} xs (y ∷ ys)))

-- The steps that can still follow.
abbrev pub rank : {S E M A R : Type 0} → System S E M A R → ℕ
rank s = 2 * length s.pending + length s.channel + open_call s.caller

reaction-open_call : {A R : Type 0} (n : ℕ) (o : R ⊎ A) → open_call (reaction n o) ≤ 1
reaction-open_call n (inl r) = omega arith
reaction-open_call n (inr a) = omega arith

module _ {S E M A R : Type 0} (act : E → S → M × S) (react : A → M → R ⊎ A) (finish : A → R) where
  Step-rank : (s t : System S E M A R) → Step act react finish s t → rank t < rank s
  Step-rank s t (Step.ends pre post task e f) = rw f (
      omega (
        arith,
        ap length e,
        length-append {0} pre (task ∷ post),
        length-append {0} pre post,
        length-append {0} s.channel ((act task s.shared).0 ∷ []),
      ))
  Step-rank s t (Step.receives n a x xs c e f) =
      rw f (omega (arith, ap length e, ap open_call c, reaction-open_call n (react a x)))
  Step-rank s t (Step.returns a c f) = rw f (omega (arith, ap open_call c))

  pub Reach-rank :
      {s t : System S E M A R} (r : Reach act react finish s t)
      → steps (Step act react finish) r + rank t ≤ rank s
  Reach-rank r = steps-rank (Step act react finish) rank Step-rank r

module _ {S E M A R : Type 0} (act : E → S → M × S) (react : A → M → R ⊎ A) (finish : A → R)
    (tasks : List E) (a₀ : A) (s₀ : S) where
  -- A state in which the caller may have returned this: some of the tasks have ended, one after the
  -- other, and with the others behind them the loop over their messages act gives this.
  pub record Outcome (s : System S E M A R) (r : R) : Type 0 where
    pub ended : List E
    pub all : Permᴰ (ended ++ s.pending) tasks
    pub gives : result finish (consume react a₀ (messages act (ended ++ s.pending) s₀)) ≡ r
    pub leaves : s.shared ≡ effects act ended s₀
    pub complete :
        (a : A) → consume react a₀ (messages act (ended ++ s.pending) s₀) ≡ inr a → s.pending ≡ []

  messages-received :
      (s : System S E M A R) (inv : Inv act react finish tasks a₀ s₀ s)
      → messages act (inv.ended ++ s.pending) s₀
        ≡ inv.received ++ (s.channel ++ messages act s.pending (effects act inv.ended s₀))
  messages-received s inv =
      messages-append act inv.ended s.pending s₀
      ∙ (ap (λ l. l ++ messages act s.pending (effects act inv.ended s₀)) inv.sent
          ∙ append_assoc inv.received s.channel (messages act s.pending (effects act inv.ended s₀)))

  -- Once as many messages act have been received as there are tasks, these are all of them.
  all-received :
      (s : System S E M A R) (inv : Inv act react finish tasks a₀ s₀ s)
      → length inv.received ≡ length tasks
      → (messages act (inv.ended ++ s.pending) s₀ ≡ inv.received)
        × (s.channel ≡ [])
        × (s.pending ≡ [])
  all-received s inv count =
      let split = messages-received s inv in
      let sent = messages act s.pending (effects act inv.ended s₀) in
      let total : length (inv.received ++ (s.channel ++ sent)) ≡ length inv.received =
        ap length (sym split)
        ∙ (length-messages act (inv.ended ++ s.pending) s₀ ∙ (length-Permᴰ inv.all ∙ sym count)) in
      let counts : length s.channel + length s.pending ≡ 0 = omega (
        arith,
        total,
        length-append {0} inv.received (s.channel ++ sent),
        length-append {0} s.channel sent,
        length-messages act s.pending (effects act inv.ended s₀),
      ) in
      (
        split
            ∙ (ap (λ l. inv.received ++ l) (rest-nil inv.received (s.channel ++ sent) total)
                ∙ append-nil inv.received),
        nil-of_length s.channel (omega (arith, counts)),
        nil-of_length s.pending (omega (arith, counts)),
      )

  pub outcome :
      (s : System S E M A R) (r : R)
      → Reach act react finish (start act react finish tasks a₀ s₀) s
      → s.caller ≡ Caller.returned r
      → Outcome s r
  outcome s r reach c =
      let inv = Reach-Inv act react finish tasks a₀ s₀ reach in
      let split = messages-received s inv in
      let rest = s.channel ++ messages act s.pending (effects act inv.ended s₀) in
      elim (subst (λ k. Stands act react finish tasks a₀ s₀ k inv.received) c inv.stands) [
        | inl early ↦
            let gone =
              ap (consume react a₀) split ∙ consume-inl react a₀ inv.received rest r early in
            record {
              ended = inv.ended;
              all = inv.all;
              gives = ap (result finish) gone;
              leaves = inv.left;
              complete = λ a e. absurd (cc (gone, e));
            }
        | inr (last, count) ↦
            let (same, _, none_left) = all-received s inv count in
            record {
              ended = inv.ended;
              all = inv.all;
              gives = ap (λ l. result finish (consume react a₀ l)) same ∙ last;
              leaves = inv.left;
              complete = λ a e. none_left;
            }
      ]

  -- A caller that gathers all messages has waited for all tasks.
  pub Outcome-effects :
      (s : System S E M A R) (r : R) (o : Outcome s r) (a : A)
      → consume react a₀ (messages act (o.ended ++ s.pending) s₀) ≡ inr a
      → s.shared ≡ effects act (o.ended ++ s.pending) s₀
  Outcome-effects s r o a gathered =
      let all_ended = ap (λ l. o.ended ++ l) (o.complete a gathered) ∙ append-nil o.ended in
      o.leaves ∙ ap (λ l. effects act l s₀) (sym all_ended)

  -- A message is still to come while the caller waits for one.
  pending-cons :
      (s : System S E M A R) (inv : Inv act react finish tasks a₀ s₀ s) (n : ℕ)
      → suc n + length inv.received ≡ length tasks
      → s.channel ≡ []
      → (task : E) × (rest : List E) × (s.pending ≡ task ∷ rest)
  pending-cons s inv n count empty = elim (List-cases s.pending) [
    | inl none_left ↦ absurd (
        omega (
          arith,
          count,
          ap length inv.sent,
          ap length empty,
          ap length none_left,
          length-append {0} inv.received s.channel,
          length-messages act inv.ended s₀,
          length-append {0} inv.ended s.pending,
          length-Permᴰ inv.all,
        ))
    | inr found ↦ found
  ]

  next-step :
      (s : System S E M A R)
      → Inv act react finish tasks a₀ s₀ s
      → ((r : R) × (s.caller ≡ Caller.returned r))
        ⊎ ((t : System S E M A R) × Step act react finish s t)
  next-step s inv = elim (Caller-cases s.caller) [
    | inl (r, e) ↦ inl (r, e)
    | inr (zero, a, e) ↦ inr (_, Step.returns a e refl)
    | inr (suc n, a, e) ↦ elim (List-cases s.channel) [
      | inl empty ↦
          let count =
            (subst (λ k. Stands act react finish tasks a₀ s₀ k inv.received) e inv.stands).1 in
          let (task, rest, f) = pending-cons s inv n count empty in
          inr (_, Step.ends [] rest task f refl)
      | inr (x, xs, f) ↦ inr (_, Step.receives n a x xs e f refl)
    ]
  ]

  -- In every state that is reached the caller has returned or a step can follow.
  pub Reach-Step :
      (s : System S E M A R)
      → Reach act react finish (start act react finish tasks a₀ s₀) s
      → ((r : R) × (s.caller ≡ Caller.returned r))
        ⊎ ((t : System S E M A R) × Step act react finish s t)
  Reach-Step s reach = next-step s (Reach-Inv act react finish tasks a₀ s₀ reach)

  -- From every state that is reached the caller can return.
  pub Reach-returned :
      (s : System S E M A R)
      → Reach act react finish (start act react finish tasks a₀ s₀) s
      → (t : System S E M A R) × Reach act react finish s t
        × ((r : R) × (t.caller ≡ Caller.returned r))
  Reach-returned =
      ends_lem (Step act react finish) rank (Step-rank act react finish)
        (λ s. (r : R) × (s.caller ≡ Caller.returned r)) (start act react finish tasks a₀ s₀)
        Reach-Step
