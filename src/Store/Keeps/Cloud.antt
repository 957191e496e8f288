-- ===== src/Store/Keeps/Cloud.antt =====
-- The stores of imagestore/s3store.go and gcsstore.go keep what is saved in them, where their
-- services keep what they are sent.
use mandible.Base.{
  String, ◌<>◌, Bool, not, ◌==◌, string_eq, if◌then◌else◌, ◌≡◌, ◌≢◌, refl, ap, sym, ◌∙◌, inl, inr,
  some, arith, length, Option-cases,
}
use mandible.Base.Dict.{lookup}
use mandible.Base.Result.{Result, Result-cases, ok, ⊤}
use mandible.Host.{Bytes, read_file}
use mandible.Store.Types.{Reader, StoreObject, World, ImageStore, new_store_object}
use mandible.Store.Mapper.{NamePathMapper, map_to_path}
use mandible.Store.Keeps.{Keeps}
use mandible.Store.Single.{whole}
use mandible.Store.Cloud.{
  S3Client, GcsClient, s3_path, gcs_path, s3_store, gcs_store, sent, nilable,
}

-- What the documentation of a service says of a bucket: an object that was written is read back, and
-- those with other names are left as they are.
pub record IsDocumented {C : Type 0} (write : String → String → Bytes → C → Result ⊤ × C)
    (read : String → C → Result Reader) : Type 0 where
  pub reads_back :
      (path mime : String) (bytes : Bytes) (c : C)
      → (write path mime bytes c).0 ≡ ok tt
      → read path (write path mime bytes c).1 ≡ ok (whole bytes)
  pub leaves :
      (path other mime : String) (bytes : Bytes) (c : C)
      → other ≢ path
      → read other (write path mime bytes c).1 ≡ read other c

-- The store of a service.
module _ {C : Type 0} (send : Bytes → C → Result ⊤ × C) (url src : String) (obj : StoreObject)
    (w : World C) where
  sent-names : (sent send url src obj w).1 ≡ record obj { url = (sent send url src obj w).1.url }
  unfolding read_file
  sent-names = ground arith

  sent-host : (sent send url src obj w).2.host ≡ w.host
  unfolding read_file
  sent-host = ground arith

  -- The file was there, and the service has taken it.
  sent-ok :
      (sent send url src obj w).0 ≡ ok tt
      → (bytes : Bytes) × (lookup src w.host.disk ≡ some bytes)
        × ((send bytes w.cloud).0 ≡ ok tt)
        × ((sent send url src obj w).2.cloud ≡ (send bytes w.cloud).1)
  unfolding read_file
  sent-ok h = elim (Option-cases (lookup src w.host.disk)) [
    | inl missing ↦ absurd (ground (arith, h, missing))
    | inr (bytes, found) ↦ elim (Result-cases (send bytes w.cloud).0) [
      | inl (_, e) ↦ (bytes, found, e, ground (arith, e, found))
      | inr (inl (_, e)) ↦ absurd (ground (arith, h, e, found))
      | inr (inr e) ↦ absurd (ground (arith, h, e, found))
    ]
  ]

-- A store that sends to and reads from a place of a service that the object's identifier and size give.
module _ {C : Type 0} (write : String → String → Bytes → C → Result ⊤ × C)
    (read : String → C → Result Reader) (documented : IsDocumented write read)
    (path : StoreObject → String) (key : String → String → String)
    (placed : (obj : StoreObject) → path obj ≡ key obj.id obj.size) (url : StoreObject → String)
    (exists : StoreObject → World C → Result Bool) (string : String) where
  abbrev service_store : ImageStore C
  service_store = record {
    save = λ src obj w. sent (write (path obj) obj.mime_type) (url obj) src obj w;
    exists = exists;
    get = λ obj w. nilable (read (path obj) w.cloud);
    string = string;
  }

  service-get_save :
      (src : String) (obj : StoreObject) (w : World C)
      → (service_store.save src obj w).0 ≡ ok tt
      → (bytes : Bytes) × (lookup src w.host.disk ≡ some bytes)
        × (service_store.get obj (service_store.save src obj w).2 ≡ ok (some (whole bytes)))
  service-get_save src obj w saved =
      let (bytes, found, taken, left) =
        sent-ok (write (path obj) obj.mime_type) (url obj) src obj w saved in
      (
        bytes,
        found,
        ap (λ c. nilable (read (path obj) c)) left
            ∙ ap nilable (documented.reads_back (path obj) obj.mime_type bytes w.cloud taken),
      )

  service-get_other :
      (src : String) (obj other : StoreObject) (w : World C)
      → (service_store.save src obj w).0 ≡ ok tt
      → key other.id other.size ≢ key obj.id obj.size
      → service_store.get other (service_store.save src obj w).2 ≡ service_store.get other w
  service-get_other src obj other w saved apart =
      let (bytes, _, _, left) =
        sent-ok (write (path obj) obj.mime_type) (url obj) src obj w saved in
      ap (λ c. nilable (read (path other) c)) left
      ∙ ap nilable (
          documented.leaves (path obj) (path other) obj.mime_type bytes w.cloud
            (λ same. apart (sym (placed other) ∙ (same ∙ placed obj))))

  service_store-Keeps : Keeps service_store key (λ _. Unit)
  service_store-Keeps = record {
    get_key = λ a b w same. ap (λ p. nilable (read p w.cloud)) (placed a ∙ (same ∙ sym (placed b)));
    get_host = λ obj w h. refl;
    ready_host = λ w h ready. tt;
    ready_save = λ src obj w ready saved. tt;
    names = λ src obj w. sent-names (write (path obj) obj.mime_type) (url obj) src obj w;
    host_save = λ src obj w. sent-host (write (path obj) obj.mime_type) (url obj) src obj w;
    get_save = λ src obj w ready saved. service-get_save src obj w saved;
    get_other = λ src obj other w ready saved apart. service-get_other src obj other w saved apart;
  }

-- The identifier and the size of an object, without the rest.
abbrev pub placed_object : String → String → StoreObject
placed_object id size = new_store_object id "" size

map_to_path-placed :
    (mapper : NamePathMapper) (obj : StoreObject)
    → map_to_path mapper obj ≡ map_to_path mapper (placed_object obj.id obj.size)
unfolding map_to_path
map_to_path-placed mapper obj = refl

module _ {C : Type 0} (bucket root : String) (mapper : NamePathMapper) where
  -- A store on S3 keeps what is saved in it, at the path of the object's identifier and size, if the
  -- client reads back what it has put and leaves what has another path.
  pub s3_store-Keeps :
      (client : S3Client C)
      → IsDocumented
          (λ path mime bytes. client.put_reader bucket path bytes (length bytes) mime)
          (client.get_reader bucket)
      → Keeps
          (s3_store bucket root mapper client)
          (λ id size. s3_path root mapper (placed_object id size))
          (λ _. Unit)
  s3_store-Keeps client documented =
      service_store-Keeps
        (λ path mime bytes. client.put_reader bucket path bytes (length bytes) mime)
        (client.get_reader bucket) documented (s3_path root mapper)
        (λ id size. s3_path root mapper (placed_object id size))
        (λ obj. ap (λ p. root <> ("/" <> p)) (map_to_path-placed mapper obj))
        (λ obj. client.url bucket (s3_path root mapper obj))
        (s3_store bucket root mapper client).exists "S3Store"

  -- A store on Google's cloud keeps what is saved in it, at the path of the object's identifier and size,
  -- if the client reads back what it has written and leaves what has another path.
  pub gcs_store-Keeps :
      (client : GcsClient C)
      → IsDocumented (client.write bucket) (client.new_reader bucket)
      → Keeps
          (gcs_store bucket root mapper client)
          (λ id size. gcs_path root mapper (placed_object id size))
          (λ _. Unit)
  gcs_store-Keeps client documented =
      service_store-Keeps (client.write bucket) (client.new_reader bucket) documented
        (gcs_path root mapper) (λ id size. gcs_path root mapper (placed_object id size))
        (λ obj.
          ap (λ p. if not (root == "") then root <> ("/" <> p) else p)
            (map_to_path-placed mapper obj))
        (λ obj. "https://storage.googleapis.com/" <> (bucket <> ("/" <> gcs_path root mapper obj)))
        (gcs_store bucket root mapper client).exists "GCSStore"
