-- ===== src/Store/Factory/Kinds.antt =====
-- Which stores imagestore/factory.go makes of a configuration.
use mandible.Base.{
  String, ◌≡◌, refl, ◌≢◌, inl, inr, true, ◌||◌, List, [], ◌∷◌, arith, ap, sym, ◌∙◌, All, length,
  ◌==◌, string_eq,
}
use mandible.Base.Dict.{Dict}
use mandible.Base.Result.{ok, Result-cases}
use mandible.Host.{Machine}
use mandible.Store.Types.{World, ImageStore}
use mandible.Store.Multi.{multi_store}
use mandible.Store.Factory.{Services, setting, new_store, new_stores, join_stores, new_image_stores}

-- The type of a store is one of the four that there are.
abbrev pub IsSupported : Dict String → Type 0
IsSupported conf =
    (setting "Type" conf == "s3"
      || setting "Type" conf == "gcs"
      || setting "Type" conf == "local"
      || setting "Type" conf == "memory")
    ≡ true

module _ {C : Type 0} (m : Machine) (services : Services C)
    (order : World C → List (ImageStore C) → List (ImageStore C)) where
  join_stores-one :
      (stores : List (ImageStore C))
      → length stores ≡ 1
      → stores ≡ join_stores m services order stores ∷ []
  join_stores-one [] h = absurd (omega (arith, h))
  join_stores-one (s ∷ []) h = refl
  join_stores-one (s ∷ t ∷ stores) h = absurd (omega (arith, h))

  join_stores-many :
      (stores : List (ImageStore C))
      → length stores ≢ 1
      → join_stores m services order stores ≡ multi_store order stores
  join_stores-many [] h = refl
  join_stores-many (s ∷ []) h = absurd (h refl)
  join_stores-many (s ∷ t ∷ stores) h = refl

module _ {C : Type 0} (m : Machine) (services : Services C) where
  new_store-IsSupported :
      (conf : Dict String) (store : ImageStore C) (w : World C)
      → (new_store m services conf w).0 ≡ ok store
      → IsSupported conf
  unfolding new_store
  new_store-IsSupported conf store w h = ground arith

  new_stores-IsSupported :
      (confs : List (Dict String)) (stores : List (ImageStore C)) (w : World C)
      → (new_stores m services confs w).0 ≡ ok stores
      → (length stores ≡ length confs) × All IsSupported confs
  unfolding new_stores
  new_stores-IsSupported [] stores w h = (ground arith, tt)
  new_stores-IsSupported (conf ∷ confs) stores w h =
      let first = new_store m services conf w in
      let others = new_stores m services confs first.1 in
      elim (Result-cases first.0) [
        | inl (store, e) ↦ elim (Result-cases others.0) [
          | inl (rest, f) ↦
              let ih = new_stores-IsSupported confs rest first.1 f in
              (ground (arith, ih.0), (new_store-IsSupported conf store w e, ih.1))
          | inr f ↦ absurd (ground arith)
        ]
        | inr e ↦ absurd (ground arith)
      ]

  -- A configuration gives a store only if the type of each of its stores is one of the four that
  -- there are. It has as many stores as are configured; a single one is taken as it is, and any other
  -- number of them as several stores in one.
  pub new_image_stores-IsSupported :
      (order : World C → List (ImageStore C) → List (ImageStore C)) (confs : List (Dict String))
      (store : ImageStore C) (w : World C)
      → (new_image_stores m services order confs w).0 ≡ ok store
      → All IsSupported confs
        × ((stores : List (ImageStore C)) × (length stores ≡ length confs)
            × (length stores ≡ 1 → stores ≡ store ∷ [])
            × (length stores ≢ 1 → store ≡ multi_store order stores))
  unfolding new_image_stores
  new_image_stores-IsSupported order confs store w h =
      let made = new_stores m services confs w in
      elim (Result-cases made.0) [
        | inl (stores, e) ↦
            let (count, supported) = new_stores-IsSupported confs stores w e in
            let same : join_stores m services order stores ≡ store = ground arith in
            (
              supported,
              (
                stores,
                count,
                λ one. join_stores-one m services order stores one ∙ ap (λ s. s ∷ []) same,
                λ many. sym same ∙ join_stores-many m services order stores many,
              ),
            )
        | inr e ↦ absurd (ground arith)
      ]
