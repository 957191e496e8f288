-- ===== src/Upload/Types.antt =====
-- The two structs of uploadedfile/uploadedfile.go and uploadedfile/thumbfile.go. The upload holds
-- its thumbnails by pointer; here it holds them by value, and whatever changes one writes it back.
use mandible.Base.{String, Bool, List, ◌==◌, if◌then◌else◌}
use mandible.Base.Int.{ℤ, pos, int_eq}

pub record ThumbFile : Type 0 where
  pub local_path : String
  pub name : String
  pub width : ℤ
  pub max_width : ℤ
  pub height : ℤ
  pub max_height : ℤ
  pub shape : String
  pub crop_gravity : String
  pub crop_width : ℤ
  pub crop_height : ℤ
  pub crop_ratio : String
  pub quality : ℤ
  pub format : String
  pub store_uri : String
  pub desired_format : String
  pub no_store : Bool

pub record UploadedFile : Type 0 where
  pub filename : String
  pub path : String
  pub mime : String
  pub hash : String
  pub ocr_text : String
  pub thumbs : List ThumbFile

abbrev pub default_quality : ℤ
default_quality = pos 83

abbrev pub max_image_side_size : ℤ
max_image_side_size = pos 10000

-- The arguments in the order of `NewThumbFile`.
unfoldable pub new_thumb_file :
    (width max_width height max_height : ℤ) (name shape path crop_gravity : String)
    (crop_width crop_height : ℤ) (crop_ratio : String) (quality : ℤ) (desired_format : String)
    (no_store : Bool)
    → ThumbFile
new_thumb_file w mw h mh name shape path gravity cw ch ratio quality desired no_store = record {
  local_path = path;
  name = name;
  width = w;
  max_width = mw;
  height = h;
  max_height = mh;
  shape = shape;
  crop_gravity = gravity;
  crop_width = cw;
  crop_height = ch;
  crop_ratio = ratio;
  quality = if quality == pos 0 then default_quality else quality;
  format = "";
  store_uri = "";
  desired_format = desired;
  no_store = no_store;
}
