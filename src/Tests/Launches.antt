-- ===== src/Tests/Launches.antt =====
-- The theorems on the program as a whole: main.go, and an upload from the processor to the store.
use mandible.Base.{
  ◌≡◌, ◌≢◌, refl, inl, inr, false, [], ◌∷◌, none, some, ap, arith, ◌==◌, string_eq, eq_iff,
  if◌then◌else◌,
}
use mandible.Base.Int.{pos, wrap64}
use mandible.Base.Text.{show_int}
use mandible.Base.Dict.{lookup, insert}
use mandible.Base.Result.{ok}
use mandible.Config.{new_configuration}
use mandible.Host.{read_file}
use mandible.Upload.Types.{UploadedFile}
use mandible.Upload.File.{file_size, dimensions, new_uploaded_file}
use mandible.Process.Types.{run_all}
use mandible.Process.Strategy.{everything_strategy}
use mandible.Store.Types.{World}
use mandible.Store.Single.{files, memory_save, memory_store}
use mandible.Store.Factory.{new_image_stores, new_stores, new_store, new_memory_image_store}
use mandible.Store.Keeps.Memory.{HasSlot, memory_store-Keeps}
use mandible.Server.Types.{Outside, Server, ServerResponse, Payload, host_of, save_to_tmp}
use mandible.Server.Auth.{
  AuthenticatedUser, get_user, new_hmac_authenticator, mac_equal, check_grant, expiry,
}
use mandible.Server.Auth.Grants.{Grants}
use mandible.Server.Stats.{Network, resolve}
use mandible.Server.Extract.{extractor_base64, parse_thumbs}
use mandible.Server.Routes.{routes, authenticated_endpoint, request_middleware}
use mandible.Server.Setup.{Stats, choose_stats, choose_server, new_authenticated_server}
use mandible.Server.Upload.{
  upload_file, process_upload, store_upload, build_thumb_response, describe, upload_handler,
}
use mandible.Server.Upload.Success.{before_store}
use mandible.Server.Upload.Stored.{IsStored, stored_image, process_upload-IsStored}
use mandible.Server.Main.{Launch, Environment, configure, serve, main}
use mandible.Server.Main.Users.{main-Grants}
use mandible.Server.Main.Startup.{main-crashed}
use mandible.Tests.Data.{
  memory_configuration, services, machine, floats, schedule, outside, server, session, world,
  writer, request, upload, codec, square,
}

-- An upload whose thumbnail has been made.
abbrev with_thumb : UploadedFile
with_thumb = record upload { thumbs = record square { local_path = "/tmp/other" } ∷ [] }

abbrev answer : ServerResponse
answer = record {
  error = "";
  payload = Payload.image (record {
    link = "";
    mime = "image/jpeg";
    name = "cat.jpg";
    hash = "abcdefg";
    size = pos 3;
    width = pos 640;
    height = pos 480;
    ocr_text = "";
    thumbs = ("small", "") ∷ [];
    user_id = "";
  });
  status = 200;
}

answered : (process_upload machine outside server "cat.jpg" none with_thumb session).0 ≡ ok answer
unfolding process_upload store_upload build_thumb_response describe run_all memory_save read_file
    files file_size dimensions lookup insert
answered = refl

process_upload-IsStored_example :
    IsStored machine outside server
      (stored_image machine outside server with_thumb session)
      answer
      (host_of (before_store machine outside server with_thumb session))
      (process_upload machine outside server "cat.jpg" none with_thumb session).1.world
unfolding run_all
process_upload-IsStored_example =
    process_upload-IsStored machine outside server (λ id _. id) (HasSlot 0) (memory_store-Keeps 0)
      "cat.jpg" none with_thumb session answer (omega arith) answered refl
      ((ground (arith, eq_iff "abcdefg" "abcdefg/small"), tt), (tt, tt))

-- The environment of a program with one store in memory.
abbrev environment : Environment
environment = record {
  getenv = λ name. if name == "MANDIBLE_CONF" then "/tmp/other" else "key";
  decode = λ _. record memory_configuration { datadog_enabled = false };
  bytes_of = λ _. 1 ∷ 2 ∷ [];
}

abbrev before : World Unit
before = record world { memories = [] }

abbrev main_server : Server Unit
main_server = record {
  config = record memory_configuration { datadog_enabled = false };
  image_store = memory_store 0;
  get_hash = λ _. "abcdefg";
  processor_strategy = everything_strategy floats machine schedule;
  authenticator = get_user codec (new_hmac_authenticator (1 ∷ 2 ∷ []));
}

abbrev offline : Network Unit
offline = record { parse_ip = λ _. none; lookup_ip = λ _. []; new_godspeed = λ _. ok tt }

-- A text is saved to the disk before it is found to be no image.
abbrev texts : Outside Unit
texts = record outside { base64_reader = λ _. record { content = 104 ∷ []; fault = none } }

text_left :
    (request_middleware floats machine schedule texts main_server 5
      (authenticated_endpoint floats machine schedule texts main_server
        (extractor_base64 texts main_server))
      request
      writer
      session).1.world
    ≢ session.world
unfolding request_middleware authenticated_endpoint get_user mac_equal check_grant expiry wrap64
    lookup upload_handler extractor_base64 parse_thumbs new_hmac_authenticator upload_file
    save_to_tmp new_uploaded_file insert
text_left e = cc (ap (λ (w : World Unit). lookup "/tmp/t" w.host.disk) e)

texts_started :
    (main floats machine schedule texts services
      (λ _ stores. stores)
      (λ _ _ _. "abcdefg")
      codec
      offline
      environment
      before).0
    ≡ Launch.listening ":8080" main_server Stats.discarding
        (configure floats machine schedule texts main_server)
unfolding main serve new_configuration read_file choose_stats choose_server new_authenticated_server
    new_image_stores new_stores new_store new_memory_image_store lookup show_int
texts_started = refl

main-Grants_example :
    (environment.getenv "AUTHENTICATION_HMAC_KEY" ≢ "")
    × ((u : AuthenticatedUser) × (lookup "user_id" request.vars ≡ some u.user_id)
        × Grants codec (record { key = 1 ∷ 2 ∷ []; now = pos 0 }) request u)
unfolding lookup configure routes
main-Grants_example =
    main-Grants floats machine schedule texts services (λ _ stores. stores) (λ _ _ _. "abcdefg")
      codec offline environment before ":8080" main_server Stats.discarding
      (configure floats machine schedule texts main_server) "/user/{user_id}/base64"
      (λ elapsed. request_middleware floats machine schedule texts main_server elapsed (
        authenticated_endpoint floats machine schedule texts main_server
          (extractor_base64 texts main_server)))
      5 request writer session texts_started (inr (inr refl)) refl text_left

-- The same environment, with statistics that are to be sent.
abbrev dog_environment : Environment
dog_environment = record environment { decode = λ _. memory_configuration }

abbrev dog_server : Server Unit
dog_server = record main_server { config = memory_configuration }

main-crashed_example :
    main floats machine schedule outside services
      (λ _ stores. stores)
      (λ _ _ _. "abcdefg")
      codec
      offline
      dog_environment
      before
    ≡ (Launch.crashed, record world { memories = [] ∷ [] })
unfolding new_configuration read_file choose_server new_authenticated_server new_image_stores
    new_stores new_store new_memory_image_store lookup resolve
main-crashed_example =
    main-crashed floats machine schedule outside services (λ _ stores. stores) (λ _ _ _. "abcdefg")
      codec offline dog_environment before (record world { memories = [] ∷ [] })
      memory_configuration dog_server refl refl (inl refl) refl
