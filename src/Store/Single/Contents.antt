-- ===== src/Store/Single/Contents.antt =====
-- What the stores of imagestore/memorystore.go and localstore.go hold after a `Save`.
use mandible.Base.{ℕ, ◌<◌, String, ◌≡◌, refl, [], none, some, arith}
use mandible.Base.{set, length, ◌==◌, string_eq, if◌then◌else◌}
use mandible.Base.Updates.{get_elem?-set_self}
use mandible.Base.Dict.{Dict, lookup, insert, lookup-insert}
use mandible.Base.Result.{ok}
use mandible.Host.{Machine, Bytes}
use mandible.Store.Types.{StoreObject, World, ImageStore}
use mandible.Store.Mapper.{NamePathMapper}
use mandible.Store.Single.{
  files, memory_save, memory_store, local_path, local_save, local_store, whole,
}

module _ {C : Type 0} (src : String) (bytes : Bytes) (obj : StoreObject) (w : World C)
    (there : lookup src w.host.disk ≡ some bytes) where
  pub memory_save_lem :
      (slot : ℕ)
      → memory_save slot src obj w ≡ (
        ok tt,
        obj,
        record w { memories = set w.memories slot (insert obj.id bytes (files slot w)) },
      )
  unfolding memory_save
  memory_save_lem slot = ground arith

  pub files-set :
      (slot : ℕ) (d : Dict Bytes)
      → slot < length w.memories
      → files slot (record w { memories = set w.memories slot d }) ≡ d
  unfolding files
  files-set slot d h = ground (arith, get_elem?-set_self w.memories slot d h)

  local_save_lem :
      (m : Machine) (root : String) (mapper : NamePathMapper)
      → m.create_error (local_path root mapper obj) w.host.disk ≡ none
      → local_save m root mapper src obj w ≡ (
        ok tt,
        record obj { url = local_path root mapper obj },
        record w {
          host = record w.host {
            disk =
                insert
                  (local_path root mapper obj)
                  (if local_path root mapper obj == src then [] else bytes)
                  (insert (local_path root mapper obj) [] w.host.disk);
          };
        },
      )
  unfolding local_save
  local_save_lem m root mapper h =
      let path = local_path root mapper obj in ground (arith, lookup-insert src path [] w.host.disk)

  -- Saving a file in a store in memory succeeds and changes no file of the host. The object can
  -- then be read from it, and every object with another identifier as before.
  pub get-memory_save :
      (slot : ℕ)
      → slot < length w.memories
      → let (r, _, w') = (memory_store slot).save src obj w in
        (r ≡ ok tt)
        × (w'.host ≡ w.host)
        × ((other : StoreObject)
            → (memory_store slot).get other w' ≡ (
                if obj.id == other.id
                then ok (some (whole bytes))
                else (memory_store slot).get other w))
  get-memory_save slot h = rw (memory_save_lem slot) (
    refl,
    refl,
    λ other. ground (
      arith,
      files-set slot (insert obj.id bytes (files slot w)) h,
      lookup-insert other.id obj.id bytes (files slot w),
    ),
  )

  -- Saving a file in a local store succeeds where the path can be created, and the address of the
  -- object is its path. It can then be read there, but is empty if the file saved is the one at that
  -- path, and what is stored at other paths can be read as before.
  pub get-local_save :
      (m : Machine) (root : String) (mapper : NamePathMapper)
      → m.create_error (local_path root mapper obj) w.host.disk ≡ none
      → let store : ImageStore C = local_store m root mapper in
        let (r, obj', w') = store.save src obj w in
        (r ≡ ok tt)
        × (obj' ≡ record obj { url = local_path root mapper obj })
        × ((other : StoreObject)
            → store.get other w' ≡ (
                if local_path root mapper obj == local_path root mapper other
                then ok (some (whole (if local_path root mapper obj == src then [] else bytes)))
                else store.get other w))
  get-local_save m root mapper h = rw (local_save_lem m root mapper h) (
    refl,
    refl,
    λ other.
        let path = local_path root mapper obj in
        ground (
          arith,
          lookup-insert (local_path root mapper other) path (if path == src then [] else bytes)
              (insert path [] w.host.disk),
          lookup-insert (local_path root mapper other) path [] w.host.disk,
        ),
  )
