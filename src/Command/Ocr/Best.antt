-- ===== src/Command/Ocr/Best.antt =====
-- Which result `MultiOCRCommand.Run` of imageprocessor/processorcommand/ocrcommands.go picks.
use mathlib.Core.Path.{subst}
use mandible.Base.{
  String, ◌≡◌, refl, ◌⊎◌, inl, inr, Bool, true, false, List, [], ◌∷◌, Option, none, some, arith,
  All, Bool-cases, if◌then◌else◌,
}
use mandible.Base.Int.{ℤ, pos, negsuc, ltb_ℤ, ◌≤ℤ◌}
use mandible.Base.Result.{ok, err, panic, Result-cases}
use mandible.Host.{Host, Machine}
use mandible.Command.Ocr.{OcrResult, OcrCommand, remove_non_words, word_count, best_of, multi_ocr}

-- The words of a result, and -1 for no result.
abbrev pub score : Option OcrResult → ℤ
score none = negsuc 0
score (some r) = pos (word_count r.text)

-- A member of a list.
abbrev pub IsIn : OcrResult → List OcrResult → Type 0
IsIn r [] = ⊥
IsIn r (x ∷ xs) = (r ≡ x) ⊎ IsIn r xs

module _ (m : Machine) (image : String) where
  -- What the commands read, one after the other, without what is not a word, up to the first that
  -- fails.
  unfoldable pub results : List OcrCommand → Host → List OcrResult
  results [] h = []
  results (c ∷ cs) h =
      let (r, h') = c.run image h in
      let rest = results cs h' in
      elim r [
        | ok found ↦ elim found [ none ↦ [] | some k ↦ remove_non_words m k ∷ rest ]
        | err _ ↦ []
        | panic ↦ []
      ]

  abbrev Picked : Option OcrResult → Option OcrResult → List OcrResult → Type 0
  Picked best out rs =
      (score best ≤ℤ score out)
      × All (λ r. score (some r) ≤ℤ score out) rs
      × ((out ≡ best) ⊎ ((r : OcrResult) × (out ≡ some r) × IsIn r rs))

  if-true : {b : Bool} → b ≡ true → (x y : Option OcrResult) → (if b then x else y) ≡ x
  if-true e x y = rw e refl

  if-false : {b : Bool} → b ≡ false → (x y : Option OcrResult) → (if b then x else y) ≡ y
  if-false e x y = rw e refl

  score-if :
      (b : Bool) (x y : Option OcrResult)
      → score (if b then x else y) ≡ (if b then score x else score y)
  score-if true x y = refl
  score-if false x y = refl

  Picked-cons :
      (r : OcrResult) (best out : Option OcrResult) (rs : List OcrResult)
      → Picked (if ltb_ℤ (score best) (score (some r)) then some r else best) out rs
      → Picked best out (r ∷ rs)
  Picked-cons r best out rs h = elim (Bool-cases (ltb_ℤ (score best) (score (some r)))) [
    | inl y ↦
        let (a, b, c) = subst (λ x. Picked x out rs) (if-true y (some r) best) h in
        (
          ground arith,
          (a, b),
          elim c [ inl e ↦ inr (r, e, inl refl) | inr (q, e, i) ↦ inr (q, e, inr i) ],
        )
    | inr n ↦
        let (a, b, c) = subst (λ x. Picked x out rs) (if-false n (some r) best) h in
        (a, (ground arith, b), elim c [ inl e ↦ inl e | inr (q, e, i) ↦ inr (q, e, inr i) ])
  ]

  best_of-Picked :
      (cs : List OcrCommand) (best out : Option OcrResult) (h : Host)
      → (best_of m cs image (score best) best h).0 ≡ ok out
      → Picked best out (results cs h)
  unfolding best_of results
  best_of-Picked [] best out h e = (ground arith, tt, inl (ground arith))
  best_of-Picked (c ∷ cs) best out h e = elim (Result-cases (c.run image h).0) [
    | inl (none, f) ↦ ground arith
    | inl (some k, f) ↦
        let result = remove_non_words m k in
        let better = ltb_ℤ (score best) (score (some result)) in
        let next = if better then some result else best in
        let same = score-if better (some result) best in
        rw f (
          Picked-cons result best out (results cs (c.run image h).1)
            (best_of-Picked cs next out (c.run image h).1 (rw same (rw (f, best_of) at e))))
    | inr f ↦ ground arith
  ]

  -- When several commands run without an error, no result of one of them has more words than the one
  -- that is picked, which is itself one of them; and only if there is no result is none picked.
  pub multi_ocr-Picked :
      (order : Host → List OcrCommand → List OcrCommand) (commands : List OcrCommand) (h : Host)
      (out : Option OcrResult)
      → ((multi_ocr m order commands).run image h).0 ≡ ok out
      → All (λ r. score (some r) ≤ℤ score out) (results (order h commands) h)
        × ((out ≡ none)
            ⊎ ((r : OcrResult) × (out ≡ some r) × IsIn r (results (order h commands) h)))
  multi_ocr-Picked order commands h out e =
      let (_, most, picked) = best_of-Picked (order h commands) none out h e in (most, picked)
