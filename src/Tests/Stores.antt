-- ===== src/Tests/Stores.antt =====
-- The theorems on stores and on the names of images, at one store or two.
use mathlib.Core.List.Perm
use mandible.Base.{
  All, nat_eq, ℕ, String, ◌≡◌, refl, ◌≢◌, true, List, [], ◌∷◌, none, some, arith, ◌==◌, string_eq,
  any, length, if◌then◌else◌,
}
use mandible.Base.Int.{pos}
use mandible.Base.Dict.{lookup}
use mandible.Base.Result.{ok, is_ok}
use mandible.Store.Types.{World, StoreObject, ImageStore, new_store_object}
use mandible.Store.Mapper.Paths.{plain_mapper}
use mandible.Store.Single.{files, memory_store, local_store, local_path, whole}
use mandible.Store.Single.Contents.{get-local_save}
use mandible.Store.Multi.{multi_store}
use mandible.Store.Multi.Schedules.{has, gives, exists-multi_store, get-multi_store}
use mandible.Store.Hash.{take_bytes, draw_name}
use mandible.Store.Hash.Names.{IsName, draw_name-IsName, draw_name_total}
use mandible.Store.Factory.{new_image_stores, new_stores, new_store, new_memory_image_store}
use mandible.Store.Factory.Kinds.{IsSupported, new_image_stores-IsSupported}
use mandible.Host.{Bytes}
use mandible.Base.Result.{err}
use mandible.Base.{◌<>◌, eq_iff}
use mandible.Base.Dict.{Dict, insert, contains, lookup-insert}
use mandible.Store.Cloud.{S3Client, s3_path, s3_store}
use mandible.Store.Keeps.{Keeps}
use mandible.Store.Keeps.Memory.{HasSlot, memory_store-Keeps}
use mandible.Store.Keeps.Cloud.{placed_object, IsDocumented, s3_store-Keeps}
use mandible.Tests.Data.{memory_configuration, services, machine, world, object, memory, jpeg_bytes}

abbrev local : ImageStore Unit
local = local_store machine "/srv" plain_mapper

get-local_save_example :
    let (r, obj', w') = local.save "/tmp/u" object world in
    (r ≡ ok tt)
    × (obj' ≡ record object { url = local_path "/srv" plain_mapper object })
    × ((other : StoreObject)
        → local.get other w' ≡ (
            if local_path "/srv" plain_mapper object == local_path "/srv" plain_mapper other
            then ok (
                some (
                  whole
                    (if local_path "/srv" plain_mapper object == "/tmp/u" then [] else jpeg_bytes)))
            else local.get other world))
unfolding lookup
get-local_save_example =
    get-local_save "/tmp/u" jpeg_bytes object world refl machine "/srv" plain_mapper refl

abbrev old : StoreObject
old = new_store_object "old" "" "original"

abbrev two : List (ImageStore Unit)
two = memory_store 1 ∷ memory ∷ []

exists-multi_store_example :
    (multi_store (λ _ stores. stores) two).exists old world ≡ ok (any (has old world) two)
exists-multi_store_example =
    exists-multi_store old world (λ _ stores. stores) two (Perm.refl two) refl

two-nonempty : two ≢ []
two-nonempty e = cc

get-multi_store_example :
    is_ok ((multi_store (λ _ stores. stores) two).get old world) ≡ any (gives old world) two
unfolding files lookup
get-multi_store_example =
    get-multi_store old world (λ _ stores. stores) two (Perm.refl two) two-nonempty refl

-- 130 / 2 is the letter A, 3 / 2 no letter.
abbrev ab : List ℕ
ab = 65 ∷ 66 ∷ []

draw_name-IsName_example : IsName 2 ab × (true ≡ true → length ab ≡ 2)
unfolding draw_name take_bytes
draw_name-IsName_example =
    draw_name-IsName 2 (some (130 ∷ 3 ∷ []) ∷ some (132 ∷ 134 ∷ []) ∷ []) {str = ab} {rest = []}
      refl

draw_name_total_example :
    draw_name (pos 2) [] (some (130 ∷ 3 ∷ []) ∷ some (132 ∷ 134 ∷ []) ∷ []) ≢ none
draw_name_total_example =
    draw_name_total 2 (some (130 ∷ 3 ∷ []) ∷ some (132 ∷ 134 ∷ []) ∷ []) (omega arith)

-- The first name is that of an image in the store.
abbrev name_of : List ℕ → String
name_of [] = ""
name_of (b ∷ _) = if b == 65 then "old" else "new"

abbrev two_memories : World Unit
two_memories = record world { memories = [] ∷ [] ∷ [] }

new_image_stores-IsSupported_example :
    All IsSupported memory_configuration.stores
    × ((stores : List (ImageStore Unit)) × (length stores ≡ 1)
        × (length stores ≡ 1 → stores ≡ memory_store 1 ∷ [])
        × (length stores ≢ 1 → memory_store 1 ≡ multi_store (λ _ ss. ss) stores))
unfolding new_image_stores new_stores new_store new_memory_image_store lookup
new_image_stores-IsSupported_example =
    new_image_stores-IsSupported machine services (λ _ ss. ss) memory_configuration.stores
      (memory_store 1) world refl

memory_store-Keeps_example : Keeps memory (λ id _. id) (HasSlot 0)
memory_store-Keeps_example = memory_store-Keeps 0

-- Services that keep objects under their names.
abbrev s3 : S3Client (Dict Bytes)
s3 = record {
  head = λ bucket path c. ok (if contains path c then 200 else 404);
  put_reader = λ bucket path bytes n mime c. (ok tt, insert path bytes c);
  get_reader = λ bucket path c. elim (lookup path c) [
    | none ↦ err "NoSuchKey"
    | some bytes ↦ ok (whole bytes)
  ];
  url = λ bucket path. "http://s3/" <> path;
}

s3-IsDocumented :
    IsDocumented
      (λ path mime bytes. s3.put_reader "images" path bytes (length bytes) mime)
      (s3.get_reader "images")
s3-IsDocumented = record {
  reads_back =
      λ path mime bytes c taken. ground (arith, lookup-insert path path bytes c, eq_iff path path);
  leaves = λ path other mime bytes c apart.
      ground (arith, lookup-insert other path bytes c, eq_iff path other);
}

s3_store-Keeps_example :
    Keeps
      (s3_store "images" "root" plain_mapper s3)
      (λ id size. s3_path "root" plain_mapper (placed_object id size))
      (λ _. Unit)
s3_store-Keeps_example = s3_store-Keeps "images" "root" plain_mapper s3 s3-IsDocumented
