-- ===== src/Tests/Data.antt =====
-- A small machine, with two files, a server with one store in memory, and a request.
use mandible.Base.{String, true, [], ◌∷◌, none, some, ◌==◌, nat_eq, string_eq, inr, if◌then◌else◌}
use mandible.Base.Int.{ℤ, pos, ◌*ℤ◌, leb_ℤ}
use mandible.Base.Dict.{insert}
use mandible.Base.Result.{ok, err}
use mandible.Config.{Configuration}
use mandible.Host.{Bytes, Host, Machine}
use mandible.Upload.Types.{ThumbFile, UploadedFile}
use mandible.Upload.Thumb.{Floats}
use mandible.Upload.File.{Job}
use mandible.Process.Strategy.{Schedule, passthrough_strategy}
use mandible.Store.Types.{Reader, World, StoreObject, ImageStore, new_store_object}
use mandible.Store.Factory.{Services}
use mandible.Store.Single.{memory_store}
use mandible.Server.Types.{Outside, Server, Session, ThumbRequest}
use mandible.Server.Auth.{AuthenticatedUser, Codec, HmacAuthenticator, get_user}
use mandible.Server.Http.{Request, HttpResponse, fresh_writer}
use mandible.Server.Response.{Writer}

abbrev pub jpeg_bytes : Bytes
jpeg_bytes = 255 ∷ 216 ∷ 255 ∷ []

abbrev pub gif_bytes : Bytes
gif_bytes = 71 ∷ 73 ∷ 70 ∷ 56 ∷ []

-- Every command succeeds and leaves the thumbnail `small` of the upload behind.
abbrev pub machine : Machine
machine = record {
  exec = λ command args disk. record {
    seconds = 1;
    wait_error = none;
    disk = insert "/tmp/u_small" jpeg_bytes disk;
  };
  detect_content_type = λ bytes. elim bytes [
    | [] ↦ "text/plain"
    | b ∷ _ ↦ if b == 71 then "image/gif" else if b == 255 then "image/jpeg" else "text/plain"
  ];
  decode_config = λ _ _. inr (pos 640, pos 480);
  speller = ok (λ word. word == "hello");
  text_of = λ _. "hello you";
  to_lower = λ text. text;
  create_error = λ _ _. none;
}

-- Whole numbers for floats.
abbrev pub floats : Floats
floats = record {
  Float = ℤ;
  parse_float = λ _. some (pos 1);
  of_int = λ a. a;
  to_int = λ a. a;
  one = pos 1;
  minimum = λ a b. if leb_ℤ a b then a else b;
  times = ◌*ℤ◌;
  over = λ a _. a;
  ceil = λ a. a;
  at_least = λ a b. leb_ℤ b a;
}

abbrev pub host : Host
host = record {
  disk = ("/tmp/u", jpeg_bytes) ∷ ("/tmp/g", gif_bytes) ∷ ("/tmp/other", 1 ∷ []) ∷ [];
  ran = [];
}

-- A thumbnail of this shape, width and height.
abbrev pub thumb_with : String → ℤ → ℤ → ThumbFile
thumb_with shape width height = record {
  local_path = "";
  name = "small";
  width = width;
  max_width = pos 100;
  height = height;
  max_height = pos 0;
  shape = shape;
  crop_gravity = "";
  crop_width = pos 0;
  crop_height = pos 0;
  crop_ratio = "";
  quality = pos 83;
  format = "";
  store_uri = "";
  desired_format = "";
  no_store = true;
}

abbrev pub square : ThumbFile
square = thumb_with "square" (pos 90) (pos 0)

abbrev pub upload : UploadedFile
upload = record {
  filename = "cat.jpg";
  path = "/tmp/u";
  mime = "image/jpeg";
  hash = "";
  ocr_text = "";
  thumbs = square ∷ [];
}

abbrev pub job : Job
job = record { image = upload; host = host }

abbrev pub gif_job : Job
gif_job = record {
  image = record upload { path = "/tmp/g"; mime = "image/gif"; thumbs = [] };
  host = host;
}

abbrev pub schedule : Schedule
schedule = record { processes = λ _ ps. ps; ocr = λ _ cs. cs }

abbrev pub configuration : Configuration
configuration = record {
  max_file_size = pos 3;
  hash_length = pos 7;
  user_agent = "agent";
  stores = [];
  port = pos 8080;
  datadog_enabled = true;
  datadog_hostname = "";
}

-- One store, in memory.
abbrev pub memory_configuration : Configuration
memory_configuration = record configuration { stores = (("Type", "memory") ∷ []) ∷ [] }

-- No service can be reached, and no expression compiled.
abbrev pub services : Services Unit
services = record {
  s3_client = λ _ _ _. err "no credentials";
  gcs_client = λ _ _. err "no credentials";
  compile = λ _. none;
}

abbrev pub world : World Unit
world = record { host = host; memories = (("old", jpeg_bytes) ∷ []) ∷ []; cloud = tt }

abbrev pub session : Session Unit
session = record { world = world; events = [] }

abbrev pub object : StoreObject
object = new_store_object "abc" "image/jpeg" "original"

abbrev pub memory : ImageStore Unit
memory = memory_store 0

abbrev pub reader : Reader
reader = record { content = jpeg_bytes; fault = none }

abbrev pub user : AuthenticatedUser
user = record { user_id = "me"; grant_time = pos 100; grant_duration_seconds = pos 60 }

abbrev pub codec : Codec
codec = record {
  hmac = λ key _. key;
  decode_base64 = λ _. 1 ∷ 2 ∷ [];
  unmarshal_user = λ _. ok user;
}

abbrev pub authenticator : HmacAuthenticator
authenticator = record { key = 1 ∷ 2 ∷ []; now = pos 200 }

abbrev pub request : Request
request = record {
  path = "/user/me/base64";
  header = λ _. "given";
  form_value = λ key. if key == "thumbs" then "json" else "old";
  form_file = λ _. err "no file";
  vars = ("user_id", "me") ∷ [];
}

abbrev pub thumb_request : ThumbRequest
thumb_request = record {
  width = pos 90;
  max_width = pos 0;
  height = pos 0;
  max_height = pos 0;
  shape = "square";
  crop_gravity = "";
  crop_height = pos 0;
  crop_width = pos 0;
  quality = pos 0;
  crop_ratio = "";
  desired_format = "";
  no_store = true;
}

abbrev pub response : HttpResponse
response = record { status_code = 200; content_length = pos 3; body = reader }

abbrev pub outside : Outside Unit
outside = record {
  temp_file = λ _. ok "/tmp/t";
  unmarshal_thumbs = λ _. ok (("small", thumb_request) ∷ []);
  base64_reader = λ _. reader;
  new_request = λ _. none;
  fetch = λ _ _ _. ok response;
}

abbrev pub server : Server Unit
server = record {
  config = configuration;
  image_store = memory;
  get_hash = λ _. "abcdefg";
  processor_strategy = passthrough_strategy;
  authenticator = get_user codec authenticator;
}

abbrev pub writer : Writer
writer = fresh_writer
