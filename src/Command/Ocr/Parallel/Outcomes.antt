-- ===== src/Command/Ocr/Parallel/Outcomes.antt =====
-- What commands of MultiOCRCommand in imageprocessor/processorcommand/ocrcommands.go give that end one
-- after the other.
use mandible.Base.{
  ◌+◌, ◌≡◌, refl, ap, ◌⊎◌, inl, inr, String, List, [], ◌∷◌, ◌++◌, none, some, length, All, arith,
}
use mandible.Base.Result.{Error, ok, err, panic}
use mandible.Host.{Host, Machine}
use mandible.Command.Ocr.{OcrResult, OcrCommand, best_of}
use mandible.Command.Ocr.Parallel.{Best, pick}

module _ (image : String) where
  -- A command that fails or reads a text, on every host.
  abbrev pub Answers : OcrCommand → Type 0
  Answers c =
      (h : Host)
      → ((e : Error) × ((c.run image h).0 ≡ err e))
        ⊎ ((k : OcrResult) × ((c.run image h).0 ≡ ok (some k)))

  unfoldable pub after : List OcrCommand → Host → Host
  after [] h = h
  after (c ∷ cs) h = after cs (c.run image h).1

  unfoldable pub texts : List OcrCommand → Host → List OcrResult
  texts [] h = []
  texts (c ∷ cs) h =
      let rest = texts cs (c.run image h).1 in
      elim (c.run image h).0 [
        | ok found ↦ elim found [ none ↦ rest | some k ↦ k ∷ rest ]
        | err _ ↦ rest
        | panic ↦ rest
      ]

  unfoldable pub faults : List OcrCommand → Host → List Error
  faults [] h = []
  faults (c ∷ cs) h =
      let rest = faults cs (c.run image h).1 in
      elim (c.run image h).0 [ ok _ ↦ rest | err e ↦ e ∷ rest | panic ↦ rest ]

  pub after-append :
      (xs : List OcrCommand) (c : OcrCommand) (h : Host)
      → after (xs ++ (c ∷ [])) h ≡ (c.run image (after xs h)).1
  unfolding after
  after-append [] c h = refl
  after-append (x ∷ xs) c h = after-append xs c (x.run image h).1

  -- A command that ends after others with a text.
  pub texts-append :
      (xs : List OcrCommand) (c : OcrCommand) (k : OcrResult) (h : Host)
      → All Answers xs
      → (c.run image (after xs h)).0 ≡ ok (some k)
      → (texts (xs ++ (c ∷ [])) h ≡ texts xs h ++ (k ∷ []))
        × (faults (xs ++ (c ∷ [])) h ≡ faults xs h)
  unfolding texts faults after
  texts-append [] c k h all e = (ground (arith, e), ground (arith, e))
  texts-append (x ∷ xs) c k h (a, all) e =
      let (same_texts, same_faults) = texts-append xs c k (x.run image h).1 all e in
      elim (a h) [
        | inl (e', f) ↦ (ground (arith, f, same_texts), ground (arith, f, same_faults))
        | inr (k', f) ↦ (ground (arith, f, same_texts), ground (arith, f, same_faults))
      ]

  -- A command that ends after others with an error.
  pub faults-append :
      (xs : List OcrCommand) (c : OcrCommand) (e : Error) (h : Host)
      → All Answers xs
      → (c.run image (after xs h)).0 ≡ err e
      → (texts (xs ++ (c ∷ [])) h ≡ texts xs h)
        × (faults (xs ++ (c ∷ [])) h ≡ faults xs h ++ (e ∷ []))
  unfolding texts faults after
  faults-append [] c e h all g = (ground (arith, g), ground (arith, g))
  faults-append (x ∷ xs) c e h (a, all) g =
      let (same_texts, same_faults) = faults-append xs c e (x.run image h).1 all g in
      elim (a h) [
        | inl (e', f) ↦ (ground (arith, f, same_texts), ground (arith, f, same_faults))
        | inr (k', f) ↦ (ground (arith, f, same_texts), ground (arith, f, same_faults))
      ]

  pub length-texts :
      (xs : List OcrCommand) (h : Host)
      → All Answers xs
      → length (texts xs h) + length (faults xs h) ≡ length xs
  unfolding texts faults
  length-texts [] h all = omega arith
  length-texts (x ∷ xs) h (a, all) = elim (a h) [
    | inl (e, f) ↦ ground (arith, f, length-texts xs (x.run image h).1 all)
    | inr (k, f) ↦ ground (arith, f, length-texts xs (x.run image h).1 all)
  ]

  module _ (m : Machine) where
    -- The loop over results only.
    unfoldable pub picks : Best → List OcrResult → Best
    picks b [] = b
    picks b (k ∷ ks) = picks (pick m image b k) ks

    pub picks-append :
        (b : Best) (ks : List OcrResult) (k : OcrResult)
        → picks b (ks ++ (k ∷ [])) ≡ pick m image (picks b ks) k
    unfolding picks
    picks-append b [] k = refl
    picks-append b (x ∷ ks) k = picks-append (pick m image b x) ks k

    -- One after the other, the first error ends the run.
    pub best_of-faults :
        (xs rest : List OcrCommand) (b : Best) (h : Host) (e : Error) (es : List Error)
        → All Answers xs
        → faults xs h ≡ e ∷ es
        → (best_of m (xs ++ rest) image b.0 b.1 h).0 ≡ err e
    unfolding best_of faults
    best_of-faults [] rest b h e es all f = absurd (cc f)
    best_of-faults (x ∷ xs) rest b h e es (a, all) f = elim (a h) [
      | inl (e', g) ↦ rw (g, best_of) (ap err (cc (rw (g, faults) at f)))
      | inr (k, g) ↦
          rw (g, best_of)
            (best_of-faults xs rest (pick m image b k) (x.run image h).1 e es all
              (rw (g, faults) at f))
    ]

    -- Without an error, the best of the results is given.
    pub best_of-texts :
        (xs : List OcrCommand) (b : Best) (h : Host)
        → All Answers xs
        → faults xs h ≡ []
        → (best_of m xs image b.0 b.1 h).0 ≡ ok (picks b (texts xs h)).1
    unfolding best_of faults texts picks
    best_of-texts [] b h all f = refl
    best_of-texts (x ∷ xs) b h (a, all) f = elim (a h) [
      | inl (e, g) ↦ absurd (cc (rw (g, faults) at f))
      | inr (k, g) ↦
          rw (g, best_of, texts)
            (best_of-texts xs (pick m image b k) (x.run image h).1 all (rw (g, faults) at f))
    ]
