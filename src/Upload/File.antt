-- ===== src/Upload/File.antt =====
-- uploadedfile/uploadedfile.go
pub mod Contents
use mandible.Base.{
  ◌⊎◌, inl, inr, String, Bool, ◌||◌, List, [], ◌∷◌, ◌++◌, none, some, ◌-◌, ◌==◌, string_eq,
}
use mandible.Base.{length, take, replicate, if◌then◌else◌}
use mandible.Base.Int.{ℤ, pos}
use mandible.Base.Dict.{lookup}
use mandible.Base.Result.{Error, Result, ok, err, Action, ◌>>=◌}
use mandible.Host.{
  Host, Disk, Machine, Bytes, gif_format, png_format, jpeg_format, read_file, remove,
}
use mandible.Upload.Types.{UploadedFile, ThumbFile}

-- The keys of `supportedTypes`.
abbrev pub is_supported : String → Bool
is_supported mime =
    mime == "image/jpeg" || mime == "image/jpg" || mime == "image/gif" || mime == "image/png"

-- The buffer of 512 bytes after `file.Read`: what the file has, and zeros.
abbrev pub sniffed : Bytes → Bytes
sniffed bytes = let head = take 512 bytes in head ++ replicate (512 - length head) 0

abbrev check_type : Machine → String → String → List ThumbFile → Bytes → Result UploadedFile
check_type m filename path thumbs [] = err "EOF"
check_type m filename path thumbs (b ∷ bytes) =
    let filetype = m.detect_content_type (sniffed (b ∷ bytes)) in
    if is_supported filetype
    then ok (record {
      filename = filename;
      path = path;
      mime = filetype;
      hash = "";
      ocr_text = "";
      thumbs = thumbs;
    })
    else err "Unsupported file type!"

-- A read of an empty file gives the error EOF.
unfoldable pub new_uploaded_file :
    Machine → String → String → List ThumbFile → Action Host UploadedFile
unfolding read_file
new_uploaded_file m filename path thumbs = do
  bytes ← read_file path
  λ h. (check_type m filename path thumbs bytes, h)

abbrev pub set_hash : String → UploadedFile → UploadedFile
set_hash hash u = record u { hash = hash }

abbrev pub set_ocr_text : String → UploadedFile → UploadedFile
set_ocr_text text u = record u { ocr_text = text }

abbrev pub set_mime : String → UploadedFile → UploadedFile
set_mime mime u = record u { mime = mime }

abbrev pub set_thumbs : List ThumbFile → UploadedFile → UploadedFile
set_thumbs thumbs u = record u { thumbs = thumbs }

-- The upload and the host that its methods change.
pub record Job : Type 0 where
  pub image : UploadedFile
  pub host : Host

-- The file at the old path is removed.
unfoldable pub set_path : String → Job → Job
set_path path j = record {
  image = record j.image { path = path };
  host = remove j.image.path j.host;
}

unfoldable pub file_size : String → Disk → Result ℤ
file_size path d = elim (lookup path d) [
  | none ↦ err "no such file or directory"
  | some bytes ↦ ok (pos (length bytes))
]

-- The loop of `Clean` over the thumbnails.
unfoldable pub remove_thumbs : List ThumbFile → Host → Host
remove_thumbs [] h = h
remove_thumbs (t ∷ thumbs) h = remove_thumbs thumbs (remove t.local_path h)

unfoldable pub clean : UploadedFile → Host → Host
unfolding remove_thumbs
clean u h = remove_thumbs u.thumbs (remove u.path h)

abbrev pub is_jpeg : UploadedFile → Bool
is_jpeg u = u.mime == "image/jpeg" || u.mime == "image/jpg"

abbrev pub is_png : UploadedFile → Bool
is_png u = u.mime == "image/png"

abbrev pub is_gif : UploadedFile → Bool
is_gif u = u.mime == "image/gif"

abbrev decoded : Error ⊎ (ℤ × ℤ) → Result (ℤ × ℤ)
decoded (inl e) = err e
decoded (inr sizes) = ok sizes

unfoldable pub dimensions : Machine → UploadedFile → Disk → Result (ℤ × ℤ)
dimensions m u d = elim (lookup u.path d) [
  | none ↦ err "no such file or directory"
  | some bytes ↦
      if is_gif u
      then decoded (m.decode_config gif_format bytes)
      else if is_png u
      then decoded (m.decode_config png_format bytes)
      else if is_jpeg u
      then decoded (m.decode_config jpeg_format bytes)
      else err "Invalid mime type!"
]
