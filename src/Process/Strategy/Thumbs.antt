-- ===== src/Process/Strategy/Thumbs.antt =====
-- What the thumbnail strategy of imageprocessor/imageprocessor.go has done when it succeeds.
use mathlib.Core.Path.{subst}
use mathlib.Core.List.{Permᴰ}
use mandible.Base.{
  ap, ◌==◌, nat_eq, Bool-cases, sym, ℕ, zero, suc, ◌+◌, String, ◌≡◌, ◌∙◌, refl, ◌≢◌, List, [], ◌∷◌,
  none, some, arith, inl, inr, All, get_elem?, set, Option-cases,
}
use mandible.Base.Updates.{get_elem?-set, get_elem?-set_other}
use mandible.Base.Permuted.{Some, All-Permᴰ, Some-Permᴰ}
use mandible.Base.Result.{Result, ok, err, panic, Result-cases}
use mandible.Config.{Configuration}
use mandible.Host.{Machine}
use mandible.Command.Gm.{derived}
use mandible.Upload.Types.{ThumbFile}
use mandible.Upload.File.{Job}
use mandible.Upload.Thumb.{Floats, process}
use mandible.Upload.Thumb.Results.{process-IsMade}
use mandible.Process.Types.{Order, async_process, ProcessType, run_all}
use mandible.Process.Simple.{process_thumb_at, thumb_process}
use mandible.Process.Strategy.{Schedule, thumb_processes, thumbnail_strategy}

process_thumb_at-made :
    (F : Floats) (m : Machine) (k : ℕ) (j : Job) (t : ThumbFile)
    → get_elem? j.image.thumbs k ≡ some t
    → (process_thumb_at F m k j).0 ≡ ok tt
    → ((process_thumb_at F m k j).1.image.path ≡ j.image.path)
      × ((process_thumb_at F m k j).1.image.thumbs
          ≡ set j.image.thumbs k (record t { local_path = derived j.image.path t.name }))
unfolding process_thumb_at
process_thumb_at-made F m k j t found e =
    let made = process F m t j.image j.host in
    elim (Result-cases made.0) [
      | inl (t', f) ↦
          let placed =
            (process-IsMade F m t j.image j.host made.1 t' (ap (λ r. (r, made.1)) f)).placed in
          ground (arith, placed)
      | inr f ↦ ground arith
    ]

process_thumb_at-missing :
    (F : Floats) (m : Machine) (k : ℕ) (j : Job)
    → get_elem? j.image.thumbs k ≡ none
    → (process_thumb_at F m k j).0 ≢ ok tt
unfolding process_thumb_at
process_thumb_at-missing F m k j missing e = ground arith

process_thumb_at-thumbs :
    (F : Floats) (m : Machine) (k i : ℕ) (j : Job)
    → (process_thumb_at F m k j).0 ≡ ok tt
    → ((process_thumb_at F m k j).1.image.path ≡ j.image.path)
      × (k ≢ i → get_elem? (process_thumb_at F m k j).1.image.thumbs i ≡ get_elem? j.image.thumbs i)
      × ((t : ThumbFile)
          → k ≡ i
          → get_elem? j.image.thumbs i ≡ some t
          → get_elem? (process_thumb_at F m k j).1.image.thumbs i
            ≡ some (record t { local_path = derived j.image.path t.name }))
process_thumb_at-thumbs F m k i j e = elim (Option-cases (get_elem? j.image.thumbs k)) [
  | inl missing ↦ absurd (process_thumb_at-missing F m k j missing e)
  | inr (t, found) ↦
      let (path, thumbs) = process_thumb_at-made F m k j t found e in
      let made = record t { local_path = derived j.image.path t.name } in
      (
        path,
        λ n. ap (λ ts. get_elem? ts i) thumbs ∙ get_elem?-set_other j.image.thumbs k i made n,
        λ t' same found'.
            let at_k = get_elem?-set j.image.thumbs k t made found in
            let same_thumb : some t ≡ some t' =
              sym found ∙ (ap (get_elem? j.image.thumbs) same ∙ found') in
            ap (λ ts. get_elem? ts i) thumbs
            ∙ (ap (get_elem? (set j.image.thumbs k made)) (sym same)
                ∙ (at_k ∙ ground (arith, same_thumb))),
      )
]

module _ (F : Floats) (m : Machine) (path : String) (i : ℕ) (t : ThumbFile) where
  -- The thumbnail at the index is `t`, wherever its file is.
  abbrev pub IsThere : Job → Type 0
  IsThere j =
      (j.image.path ≡ path)
      × ((x : String) × (get_elem? j.image.thumbs i ≡ some (record t { local_path = x })))

  -- The thumbnail at the index is `t`, made.
  abbrev pub IsDone : Job → Type 0
  IsDone j =
      (j.image.path ≡ path)
      × (get_elem? j.image.thumbs i ≡ some (record t { local_path = derived path t.name }))

  abbrev pub Succeeds : ProcessType → (Job → Type 0) → (Job → Type 0) → Type 0
  Succeeds p P Q = (j : Job) → (p.process j).0 ≡ ok tt → P j → Q (p.process j).1

  abbrev pub Keeps : ProcessType → Type 0
  Keeps p = Succeeds p IsThere IsThere × Succeeds p IsDone IsDone

  abbrev pub Makes : ProcessType → Type 0
  Makes p = Succeeds p IsThere IsDone

  process_thumb_at-IsThere :
      (k : ℕ) (t₀ : ThumbFile) → Succeeds (thumb_process F m k t₀) IsThere IsThere
  process_thumb_at-IsThere k t₀ j e (p, (x, there)) =
      let (same, others, made) = process_thumb_at-thumbs F m k i j e in
      elim (Bool-cases (k == i)) [
        | inl y ↦ (
          same ∙ p,
          (derived j.image.path t.name, made (record t { local_path = x }) (ground arith) there),
        )
        | inr n ↦ (same ∙ p, (x, others (ground arith) ∙ there))
      ]

  process_thumb_at-IsDone :
      (k : ℕ) (t₀ : ThumbFile) → Succeeds (thumb_process F m k t₀) IsDone IsDone
  process_thumb_at-IsDone k t₀ j e (p, done) =
      let (same, others, made) = process_thumb_at-thumbs F m k i j e in
      elim (Bool-cases (k == i)) [
        | inl y ↦ (
          same ∙ p,
          made (record t { local_path = derived path t.name }) (ground arith) done
              ∙ ap (λ q. some (record t { local_path = derived q t.name })) p,
        )
        | inr n ↦ (same ∙ p, others (ground arith) ∙ done)
      ]

  process_thumb_at-Makes : (t₀ : ThumbFile) → Makes (thumb_process F m i t₀)
  process_thumb_at-Makes t₀ j e (p, (x, there)) =
      let (same, others, made) = process_thumb_at-thumbs F m i i j e in
      (
        same ∙ p,
        made (record t { local_path = x }) refl there
            ∙ ap (λ q. some (record t { local_path = derived q t.name })) p,
      )

  run_all-IsDone :
      (context : String) (ps : List ProcessType)
      → All Keeps ps
      → Succeeds (record { process = run_all context ps; string = "" }) IsDone IsDone
  unfolding run_all
  run_all-IsDone context [] k j e d = d
  run_all-IsDone context (p ∷ ps) (k, ks) j e d = elim (Result-cases (p.process j).0) [
    | inl (_, f) ↦
        rw (f, run_all)
          (run_all-IsDone context ps ks (p.process j).1 (rw (f, run_all) at e) (k.1 j f d))
    | inr f ↦ ground arith
  ]

  pub run_all-Makes :
      (context : String) (ps : List ProcessType)
      → All Keeps ps
      → Some Makes ps
      → Succeeds (record { process = run_all context ps; string = "" }) IsThere IsDone
  unfolding run_all
  run_all-Makes context [] k h j e d = absurd h
  run_all-Makes context (p ∷ ps) (k, ks) h j e d = elim (Result-cases (p.process j).0) [
    | inl (_, f) ↦
        let e' = rw (f, run_all) at e in
        elim h [
          | inl makes ↦
              rw (f, run_all) (run_all-IsDone context ps ks (p.process j).1 e' (makes j f d))
          | inr later ↦
              rw (f, run_all) (run_all-Makes context ps ks later (p.process j).1 e' (k.0 j f d))
        ]
    | inr f ↦ ground arith
  ]

  pub thumb_processes-Keeps : (k : ℕ) (ts : List ThumbFile) → All Keeps (thumb_processes F m k ts)
  unfolding thumb_processes
  thumb_processes-Keeps k [] = tt
  thumb_processes-Keeps k (t₀ ∷ ts) = (
    (process_thumb_at-IsThere k t₀, process_thumb_at-IsDone k t₀),
    thumb_processes-Keeps (k + 1) ts,
  )

  pub thumb_processes-Makes :
      (k n : ℕ) (ts : List ThumbFile)
      → get_elem? ts n ≡ some t
      → k + n ≡ i
      → Some Makes (thumb_processes F m k ts)
  unfolding thumb_processes
  thumb_processes-Makes k n [] found at_i = absurd (cc)
  thumb_processes-Makes k zero (t₀ ∷ ts) found at_i =
      inl (subst (λ n. Makes (thumb_process F m n t₀)) (omega arith) (process_thumb_at-Makes t₀))
  thumb_processes-Makes k (suc n) (t₀ ∷ ts) found at_i =
      inr (thumb_processes-Makes (k + 1) n ts found (omega arith))

-- What the process of a strategy's result, if it is one, has done with a thumbnail.
abbrev pub MakesAt : Job → ℕ → ThumbFile → Result ProcessType → Type 0
MakesAt j i t (ok p) =
    (p.process j).0 ≡ ok tt
    → get_elem? (p.process j).1.image.thumbs i
      ≡ some (record t { local_path = derived j.image.path t.name })
MakesAt j i t (err _) = Unit
MakesAt j i t panic = Unit

pub async_process-made :
    (F : Floats) (m : Machine) (order : Order Job ProcessType) (j : Job) (i : ℕ) (t : ThumbFile)
    → Permᴰ (order j (thumb_processes F m 0 j.image.thumbs)) (thumb_processes F m 0 j.image.thumbs)
    → get_elem? j.image.thumbs i ≡ some t
    → MakesAt j i t (ok (async_process order (thumb_processes F m 0 j.image.thumbs)))
async_process-made F m order j i t perm found done =
    let ps = thumb_processes F m 0 j.image.thumbs in
    let keeps =
      All-Permᴰ (Keeps F m j.image.path i t) perm
        (thumb_processes-Keeps F m j.image.path i t 0 j.image.thumbs) in
    let makes =
      Some-Permᴰ (Makes F m j.image.path i t) perm
        (thumb_processes-Makes F m j.image.path i t 0 i j.image.thumbs found (omega arith)) in
    (run_all-Makes F m j.image.path i t "Error asynchronously processing on " (order j ps) keeps
      makes j done (refl, (t.local_path, found))).1

-- When the thumbnail strategy succeeds, in whichever order the thumbnails are made, each thumbnail of
-- the upload has the file named after both, and is else as it was.
pub thumbnail_strategy-made :
    (F : Floats) (m : Machine) (schedule : Schedule) (cfg : Configuration) (j : Job)
    (p : ProcessType) (i : ℕ) (t : ThumbFile)
    → Permᴰ
        (schedule.processes j (thumb_processes F m 0 j.image.thumbs))
        (thumb_processes F m 0 j.image.thumbs)
    → thumbnail_strategy F m schedule cfg j ≡ ok p
    → (p.process j).0 ≡ ok tt
    → get_elem? j.image.thumbs i ≡ some t
    → get_elem? (p.process j).1.image.thumbs i
      ≡ some (record t { local_path = derived j.image.path t.name })
unfolding thumbnail_strategy
thumbnail_strategy-made F m schedule cfg j p i t perm same e found =
    subst (MakesAt j i t) same (async_process-made F m schedule.processes j i t perm found) e
