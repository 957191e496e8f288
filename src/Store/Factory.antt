-- ===== src/Store/Factory.antt =====
-- imagestore/factory.go
pub mod Kinds
use mandible.Base.{
  String, ◌<>◌, List, [], ◌∷◌, ◌++◌, Option, none, some, ◌==◌, string_eq, length, if◌then◌else◌,
}
use mandible.Base.Dict.{Dict, lookup}
use mandible.Base.Result.{Result, ok, err, panic, Action, pure, fail, of_result, ◌>>=◌}
use mandible.Host.{Machine, Bytes}
use mandible.Store.Types.{World, ImageStore}
use mandible.Store.Mapper.{NamePathMapper, Regexp, new_name_path_mapper}
use mandible.Store.Single.{memory_store, local_store}
use mandible.Store.Cloud.{S3Client, GcsClient, s3_store, gcs_store}
use mandible.Store.Multi.{multi_store}

-- What opens the services: access key, secret and region; the key file's bytes and the app.
pub record Services (C : Type 0) : Type 0 where
  pub s3_client : String → String → String → Result (S3Client C)
  pub gcs_client : Bytes → String → Result (GcsClient C)
  pub compile : String → Option Regexp

-- `conf[key]`, which is "" for a key that is not there.
abbrev pub setting : String → Dict String → String
setting key conf = elim (lookup key conf) [ none ↦ "" | some v ↦ v ]

module _ {C : Type 0} (m : Machine) (services : Services C) where
  mapper_of : Dict String → Result NamePathMapper
  mapper_of conf =
      elim (new_name_path_mapper services.compile (setting "NamePathRegex" conf)
        (setting "NamePathMap" conf)) [ none ↦ panic | some mapper ↦ ok mapper ]

  abbrev read_key : String → World C → Result Bytes
  read_key path w = elim (lookup path w.host.disk) [
    | none ↦ err "no such file or directory"
    | some bytes ↦ ok bytes
  ]

  unfoldable pub new_s3_image_store : Dict String → Action (World C) (ImageStore C)
  unfolding mapper_of
  new_s3_image_store conf = do
    client ← of_result (λ _.
        services.s3_client (setting "AWSKey" conf) (setting "AWSSecret" conf)
          (setting "Region" conf))
    mapper ← of_result (λ _. mapper_of conf)
    pure (s3_store (setting "BucketName" conf) (setting "StoreRoot" conf) mapper client)

  unfoldable pub new_gcs_image_store : Dict String → Action (World C) (ImageStore C)
  unfolding mapper_of
  new_gcs_image_store conf = do
    key ← of_result (read_key (setting "KeyFile" conf))
    client ← of_result (λ _. services.gcs_client key (setting "AppID" conf))
    mapper ← of_result (λ _. mapper_of conf)
    pure (gcs_store (setting "BucketName" conf) (setting "StoreRoot" conf) mapper client)

  unfoldable pub new_local_image_store : Dict String → Action (World C) (ImageStore C)
  unfolding mapper_of
  new_local_image_store conf = do
    mapper ← of_result (λ _. mapper_of conf)
    pure (local_store m (setting "StoreRoot" conf) mapper)

  -- The map of the new store is the last one in the world.
  unfoldable pub new_memory_image_store : Action (World C) (ImageStore C)
  new_memory_image_store w =
      (ok (memory_store (length w.memories)), record w { memories = w.memories ++ ([] ∷ []) })

  -- One turn of the loop of `NewImageStores`; `err` stands for `log.Fatal`, which ends the program.
  unfoldable pub new_store : Dict String → Action (World C) (ImageStore C)
  unfolding new_s3_image_store new_gcs_image_store new_local_image_store new_memory_image_store
  new_store conf =
      let kind = setting "Type" conf in
      if kind == "s3"
      then new_s3_image_store conf
      else if kind == "gcs"
      then new_gcs_image_store conf
      else if kind == "local"
      then new_local_image_store conf
      else if kind == "memory"
      then new_memory_image_store
      else fail ("Unsupported store " <> kind)

  unfoldable pub new_stores : List (Dict String) → Action (World C) (List (ImageStore C))
  unfolding new_store
  new_stores [] = pure []
  new_stores (conf ∷ confs) = do
    store ← new_store conf
    stores ← new_stores confs
    pure (store ∷ stores)

  -- One store stands for itself; any other number is a `MultiImageStore`.
  abbrev pub join_stores :
      (World C → List (ImageStore C) → List (ImageStore C)) → List (ImageStore C) → ImageStore C
  join_stores order (store ∷ []) = store
  join_stores order stores = multi_store order stores

  unfoldable pub new_image_stores :
      (World C → List (ImageStore C) → List (ImageStore C))
      → List (Dict String)
      → Action (World C) (ImageStore C)
  unfolding new_stores
  new_image_stores order confs = do stores ← new_stores confs; pure (join_stores order stores)
