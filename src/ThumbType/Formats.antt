-- ===== src/ThumbType/Formats.antt =====
-- imageprocessor/thumbType/thumbType.go
use mandible.Base.{String, ◌==◌, string_eq, if◌then◌else◌}

pub data ThumbType : Type 0 where
  unknown jpg png gif webp : ThumbType

pub ThumbType-discrete : Discrete ThumbType
ThumbType-discrete = hlevel

unfoldable pub to_string : ThumbType → String
to_string jpg = "JPG"
to_string png = "PNG"
to_string gif = "GIF"
to_string webp = "WEBP"
to_string unknown = "UNKNOWN"

unfoldable pub from_mime : String → ThumbType
from_mime mime =
    if mime == "image/jpeg"
    then jpg
    else if mime == "image/png"
    then png
    else if mime == "image/gif"
    then gif
    else if mime == "image/webp"
    then webp
    else unknown

unfoldable pub from_string : String → ThumbType
from_string format =
    if format == "jpg"
    then jpg
    else if format == "jpeg"
    then jpg
    else if format == "png"
    then png
    else if format == "gif"
    then gif
    else if format == "webp"
    then webp
    else unknown
