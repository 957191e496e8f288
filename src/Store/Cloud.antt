-- ===== src/Store/Cloud.antt =====
-- imagestore/s3store.go and gcsstore.go, over the clients of the two services.
use mandible.Base.{
  ℕ, String, ◌<>◌, true, not, ◌==◌, nat_eq, string_eq, length, Option, some, if◌then◌else◌,
}
use mandible.Base.Result.{Result, ok, err, panic, ⊤}
use mandible.Host.{Bytes, read_file}
use mandible.Store.Types.{StoreObject, Reader, World, ImageStore}
use mandible.Store.Mapper.{NamePathMapper, map_to_path}

-- goamz: `Head` gives a status code; `put_reader` takes bucket, path, content, size and type.
pub record S3Client (C : Type 0) : Type 0 where
  pub head : String → String → C → Result ℕ
  pub put_reader : String → String → Bytes → ℕ → String → C → Result ⊤ × C
  pub get_reader : String → String → C → Result Reader
  pub url : String → String → String

-- google.golang.org/cloud/storage, in one context; `write` takes bucket, path, type and content,
-- and is the writer's `Write` and `Close`.
pub record GcsClient (C : Type 0) : Type 0 where
  pub stat_object : String → String → C → Result ⊤
  pub write : String → String → String → Bytes → C → Result ⊤ × C
  pub new_reader : String → String → C → Result Reader

abbrev pub nilable : {A : Type 0} → Result A → Result (Option A)
nilable (ok a) = ok (some a)
nilable (err e) = err e
nilable panic = panic

-- `data` is sent, and then the object has this address.
abbrev pub sent :
    {C : Type 0}
    → (Bytes → C → Result ⊤ × C)
    → String
    → String
    → StoreObject
    → World C
    → Result ⊤ × StoreObject × World C
sent send url src obj w =
    let (r, _) = read_file src w.host in
    elim r [
      | err e ↦ (err e, obj, w)
      | panic ↦ (panic, obj, w)
      | ok bytes ↦
          let (r', c) = send bytes w.cloud in
          let w' = record w { cloud = c } in
          elim r' [
            | err e ↦ (err e, obj, w')
            | panic ↦ (panic, obj, w')
            | ok _ ↦ (ok tt, record obj { url = url }, w')
          ]
    ]

module _ (root : String) (mapper : NamePathMapper) where
  abbrev pub s3_path : StoreObject → String
  s3_path obj = root <> ("/" <> map_to_path mapper obj)

  abbrev pub gcs_path : StoreObject → String
  gcs_path obj =
      if not (root == "") then root <> ("/" <> map_to_path mapper obj) else map_to_path mapper obj

module _ {C : Type 0} (bucket root : String) (mapper : NamePathMapper) where
  abbrev pub s3_store : S3Client C → ImageStore C
  s3_store client = record {
    save = λ src obj w.
        sent
          (λ bytes.
            client.put_reader bucket (s3_path root mapper obj) bytes (length bytes) obj.mime_type)
          (client.url bucket (s3_path root mapper obj)) src obj w;
    exists = λ obj w. elim (client.head bucket (s3_path root mapper obj) w.cloud) [
      | err e ↦ err e
      | panic ↦ panic
      | ok status ↦ ok (status == 200)
    ];
    get = λ obj w. nilable (client.get_reader bucket (s3_path root mapper obj) w.cloud);
    string = "S3Store";
  }

  abbrev pub gcs_store : GcsClient C → ImageStore C
  gcs_store client = record {
    save = λ src obj w.
        sent (client.write bucket (gcs_path root mapper obj) obj.mime_type)
          ("https://storage.googleapis.com/" <> (bucket <> ("/" <> gcs_path root mapper obj))) src
          obj w;
    exists = λ obj w. elim (client.stat_object bucket (gcs_path root mapper obj) w.cloud) [
      | err e ↦ err e
      | panic ↦ panic
      | ok _ ↦ ok true
    ];
    get = λ obj w. nilable (client.new_reader bucket (gcs_path root mapper obj) w.cloud);
    string = "GCSStore";
  }
