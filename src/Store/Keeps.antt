-- ===== src/Store/Keeps.antt =====
-- imagestore/store.go: what the server relies on in an `ImageStore` beyond its methods.
pub mod Memory
pub mod Cloud
use mandible.Base.{String, ◌≡◌, ◌≢◌, Option, some}
use mandible.Base.Dict.{lookup}
use mandible.Base.Result.{Result, ok, ⊤}
use mandible.Host.{Host, Bytes}
use mandible.Store.Types.{StoreObject, World, ImageStore}
use mandible.Store.Single.{whole}

-- In the worlds that are `Ready`, a `save` that succeeds has read the source file, changes the address
-- of the object at most, and keeps the file's bytes at the place `key` of the object's identifier and
-- size, until something is saved at the same place. The files of the host are neither changed nor read
-- again.
pub record Keeps {C : Type 0} (store : ImageStore C) (key : String → String → String)
    (Ready : World C → Type 0) : Type 0 where
  pub get_key :
      (a b : StoreObject) (w : World C)
      → key a.id a.size ≡ key b.id b.size
      → store.get a w ≡ store.get b w
  pub get_host :
      (obj : StoreObject) (w : World C) (h : Host)
      → store.get obj (record w { host = h }) ≡ store.get obj w
  pub ready_host : (w : World C) (h : Host) → Ready w → Ready (record w { host = h })
  pub ready_save :
      (src : String) (obj : StoreObject) (w : World C)
      → Ready w
      → (store.save src obj w).0 ≡ ok tt
      → Ready (store.save src obj w).2
  pub names :
      (src : String) (obj : StoreObject) (w : World C)
      → (store.save src obj w).1 ≡ record obj { url = (store.save src obj w).1.url }
  pub host_save :
      (src : String) (obj : StoreObject) (w : World C) → (store.save src obj w).2.host ≡ w.host
  pub get_save :
      (src : String) (obj : StoreObject) (w : World C)
      → Ready w
      → (store.save src obj w).0 ≡ ok tt
      → (bytes : Bytes) × (lookup src w.host.disk ≡ some bytes)
        × (store.get obj (store.save src obj w).2 ≡ ok (some (whole bytes)))
  pub get_other :
      (src : String) (obj other : StoreObject) (w : World C)
      → Ready w
      → (store.save src obj w).0 ≡ ok tt
      → key other.id other.size ≢ key obj.id obj.size
      → store.get other (store.save src obj w).2 ≡ store.get other w
