-- ===== src/Store/Types.antt =====
-- imagestore/store.go and storeobject.go: the interface of a store, and the objects that it keeps.
use mandible.Base.{String, Bool, List, Option}
use mandible.Base.Dict.{Dict}
use mandible.Base.Result.{Result, Error, ⊤}
use mandible.Host.{Host, Bytes}

pub record StoreObject : Type 0 where
  pub id : String
  pub mime_type : String
  pub size : String
  pub url : String

-- An `io.Reader`: what it gives, and the error that it then ends with, if not with EOF.
pub record Reader : Type 0 where
  pub content : Bytes
  pub fault : Option Error

-- All that the stores read and write: the host, the maps of the stores in memory, and the state `C`
-- of the services.
pub record World (C : Type 0) : Type 0 where
  pub host : Host
  pub memories : List (Dict Bytes)
  pub cloud : C

-- A value of the interface `ImageStore` is its methods. `save` gives back the object as the call has
-- left it, which is the object that the method returns; a reader of `get` may be nil.
pub record ImageStore (C : Type 0) : Type 0 where
  pub save : String → StoreObject → World C → Result ⊤ × StoreObject × World C
  pub exists : StoreObject → World C → Result Bool
  pub get : StoreObject → World C → Result (Option Reader)
  pub string : String

-- `Factory.NewStoreObject`
abbrev pub new_store_object : String → String → String → StoreObject
new_store_object id mime size = record { id = id; mime_type = mime; size = size; url = "" }

-- `StoreObject.Store`, for an object with this path: `this.Url = obj.Url` writes what is there.
abbrev pub store_object :
    {C : Type 0} → ImageStore C → String → StoreObject → World C → Result ⊤ × StoreObject × World C
store_object store path obj w = store.save path obj w
