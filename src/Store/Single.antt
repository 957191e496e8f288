-- ===== src/Store/Single.antt =====
-- imagestore/memorystore.go and localstore.go
pub mod Contents
use mandible.Base.{ℕ, String, ◌<>◌, true, [], none, some, get_elem?, set, if◌then◌else◌}
use mandible.Base.Dict.{Dict, lookup, contains, insert}
use mandible.Base.Result.{Result, ok, err, panic, ⊤}
use mandible.Host.{Machine, Bytes, read_file, create_file, copy_file}
use mandible.Store.Types.{StoreObject, Reader, World, ImageStore}
use mandible.Store.Mapper.{NamePathMapper, map_to_path}

abbrev pub whole : Bytes → Reader
whole bytes = record { content = bytes; fault = none }

-- `LocalImageStore.toPath`
abbrev pub local_path : String → NamePathMapper → StoreObject → String
local_path root mapper obj = root <> ("/" <> map_to_path mapper obj)

module _ {C : Type 0} where
  -- The files of the store in memory with this number.
  unfoldable pub files : ℕ → World C → Dict Bytes
  files slot w = elim (get_elem? w.memories slot) [ none ↦ [] | some d ↦ d ]

  unfoldable pub memory_save : ℕ → String → StoreObject → World C → Result ⊤ × StoreObject × World C
  unfolding files read_file
  memory_save slot src obj w =
      let (r, h) = read_file src w.host in
      elim r [
        | err e ↦ (err e, obj, w)
        | panic ↦ (panic, obj, w)
        | ok bytes ↦
            let memories = set w.memories slot (insert obj.id bytes (files slot w)) in
            (ok tt, obj, record w { memories = memories })
      ]

  -- Keyed by the identifier alone: neither the size nor a path counts.
  abbrev pub memory_store : ℕ → ImageStore C
  memory_store slot = record {
    save = memory_save slot;
    exists = λ obj w. ok (contains obj.id (files slot w));
    get = λ obj w. elim (lookup obj.id (files slot w)) [
      | none ↦ err "File doesn't exist"
      | some bytes ↦ ok (some (whole bytes))
    ];
    string = "InMemoryStore";
  }

  module _ (m : Machine) (root : String) (mapper : NamePathMapper) where
    -- The source is opened before the target is created, and read after it.
    unfoldable pub local_save : String → StoreObject → World C → Result ⊤ × StoreObject × World C
    unfolding read_file create_file copy_file
    local_save src obj w =
        let (r, h) = read_file src w.host in
        elim r [
          | err e ↦ (err e, obj, w)
          | panic ↦ (panic, obj, w)
          | ok _ ↦
              let (created, h₁) = create_file m (local_path root mapper obj) h in
              elim created [
                | err e ↦ (err e, obj, record w { host = h₁ })
                | panic ↦ (panic, obj, record w { host = h₁ })
                | ok _ ↦
                    let (copied, h₂) = copy_file src (local_path root mapper obj) h₁ in
                    elim copied [
                      | err e ↦ (err e, obj, record w { host = h₂ })
                      | panic ↦ (panic, obj, record w { host = h₂ })
                      | ok _ ↦ (
                        ok tt,
                        record obj { url = local_path root mapper obj },
                        record w { host = h₂ },
                      )
                    ]
              ]
        ]

    -- A file that is not there is an error of `Exists`, and not only the answer `false`.
    abbrev pub local_store : ImageStore C
    local_store = record {
      save = local_save;
      exists = λ obj w.
          if contains (local_path root mapper obj) w.host.disk
          then ok true
          else err "no such file or directory";
      get = λ obj w. elim (lookup (local_path root mapper obj) w.host.disk) [
        | none ↦ err "no such file or directory"
        | some bytes ↦ ok (some (whole bytes))
      ];
      string = "LocalStore";
    }
