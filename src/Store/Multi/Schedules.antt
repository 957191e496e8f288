-- ===== src/Store/Multi/Schedules.antt =====
-- What of a call of several stores does not depend on the order in which they answer.
use mathlib.Core.List.{Perm}
use mathlib.Core.List.Perm
use mandible.Base.{◌<>◌, ◌≡◌, refl, ◌≢◌, sym, ◌∙◌, Bool, true, false, List, [], ◌∷◌, none, arith}
use mandible.Base.{any, all, inl, inr}
use mandible.Base.Order.{any-Perm, all-Perm}
use mandible.Base.Result.{Error, ok, err, panic, is_ok, Result-cases}
use mandible.Store.Types.{StoreObject, World, ImageStore}
use mandible.Store.Multi.{exists_any, get_first, multi_store}

module _ {C : Type 0} (obj : StoreObject) (w : World C) where
  -- The store answers, with `true` or `false`.
  abbrev pub answers : ImageStore C → Bool
  answers s = is_ok (s.exists obj w)

  abbrev pub has : ImageStore C → Bool
  has s = elim (s.exists obj w) [ ok b ↦ b | err _ ↦ false | panic ↦ false ]

  exists_any-any :
      (stores : List (ImageStore C))
      → all answers stores ≡ true
      → exists_any stores obj w ≡ ok (any has stores)
  unfolding exists_any
  exists_any-any [] h = refl
  exists_any-any (s ∷ stores) h = ground (arith, exists_any-any stores)

  -- If every store answers, then the answer of them all is whether one of them has the object, in
  -- whichever order they answer.
  pub exists-multi_store :
      (order : World C → List (ImageStore C) → List (ImageStore C)) (stores : List (ImageStore C))
      → Perm (order w stores) stores
      → all answers stores ≡ true
      → (multi_store order stores).exists obj w ≡ ok (any has stores)
  exists-multi_store order stores p h =
      rw (← any-Perm has p) (exists_any-any (order w stores) (all-Perm answers p ∙ h))

  -- The store gives a reader, or an error.
  abbrev pub gives : ImageStore C → Bool
  gives s = is_ok (s.get obj w)

  abbrev pub returns : ImageStore C → Bool
  returns s = elim (s.get obj w) [ ok _ ↦ true | err _ ↦ true | panic ↦ false ]

  abbrev lost : ImageStore C → Error → Error
  lost s e = "Error asynchronously getting image on " <> (s.string <> (": " <> e))

  get_first-any :
      (stores : List (ImageStore C)) (e : Error)
      → all returns stores ≡ true
      → is_ok (get_first stores (err e) obj w) ≡ any gives stores
  unfolding get_first
  get_first-any [] e h = refl
  get_first-any (s ∷ stores) e h = elim (Result-cases (s.get obj w)) [
    | inl (r, given) ↦ ground arith
    | inr (inl (f, failed)) ↦ ground (arith, get_first-any stores (lost s f))
    | inr (inr gone) ↦ ground arith
  ]

  get_first-any_start :
      (stores : List (ImageStore C))
      → stores ≢ []
      → all returns stores ≡ true
      → is_ok (get_first stores (ok none) obj w) ≡ any gives stores
  unfolding get_first
  get_first-any_start [] n h = absurd (n refl)
  get_first-any_start (s ∷ stores) n h = elim (Result-cases (s.get obj w)) [
    | inl (r, given) ↦ ground arith
    | inr (inl (f, failed)) ↦ ground (arith, get_first-any stores (lost s f))
    | inr (inr gone) ↦ ground arith
  ]

  -- With at least one store, and none that panics, an object is found exactly if one of the stores
  -- gives it, in whichever order they answer.
  pub get-multi_store :
      (order : World C → List (ImageStore C) → List (ImageStore C)) (stores : List (ImageStore C))
      → Perm (order w stores) stores
      → stores ≢ []
      → all returns stores ≡ true
      → is_ok ((multi_store order stores).get obj w) ≡ any gives stores
  get-multi_store order stores p n h = rw (← any-Perm gives p) (
      get_first-any_start (order w stores) (λ e. n (sym (Perm.nil-eq (rw e at p))))
        (all-Perm returns p ∙ h))
