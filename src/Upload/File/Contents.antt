-- ===== src/Upload/File/Contents.antt =====
-- What uploadedfile/uploadedfile.go takes as an upload, and what it leaves of one.
use mandible.Base.{
  Option-cases, Bool-cases, ◌⊎◌, inl, inr, ℕ, zero, suc, ◌-◌, ◌≤◌, String, ◌≡◌, refl, ◌≢◌, Bool,
  true, false, ◌||◌, List, [], ◌∷◌, none, some, arith, length, length-append, take, replicate, any,
  ◌==◌, string_eq, if◌then◌else◌,
}
use mandible.Base.Dict.{lookup, lookup-erase}
use mandible.Base.Result.{ok, err}
use mandible.Host.{Host, Machine, Bytes, remove}
use mandible.Upload.Types.{UploadedFile, ThumbFile}
use mandible.Upload.File.{
  is_supported, sniffed, check_type, new_uploaded_file, remove_thumbs, clean,
}

length-take : {A : Type 0} (n : ℕ) (xs : List A) → length (take n xs) ≤ n
length-take zero xs = omega arith
length-take (suc n) [] = omega arith
length-take (suc n) (x ∷ xs) = omega (arith, length-take n xs)

length-replicate : {A : Type 0} (n : ℕ) (a : A) → length (replicate n a) ≡ n
length-replicate zero a = refl
length-replicate (suc n) a = omega (arith, length-replicate n a)

pub length-sniffed : (bytes : Bytes) → length (sniffed bytes) ≡ 512
length-sniffed bytes = omega (
  arith,
  length-append {0} (take 512 bytes) (replicate {A = ℕ} (512 - length (take 512 bytes)) 0),
  length-take 512 bytes,
  length-replicate {A = ℕ} (512 - length (take 512 bytes)) 0,
)

check_type-ok :
    (m : Machine) (filename path : String) (thumbs : List ThumbFile) (bytes : Bytes)
    (u : UploadedFile)
    → check_type m filename path thumbs bytes ≡ ok u
    → (bytes ≢ [])
      × (is_supported (m.detect_content_type (sniffed bytes)) ≡ true)
      × (u ≡ record {
        filename = filename;
        path = path;
        mime = m.detect_content_type (sniffed bytes);
        hash = "";
        ocr_text = "";
        thumbs = thumbs;
      })
check_type-ok m filename path thumbs [] u e = ground arith
check_type-ok m filename path thumbs (b ∷ bytes) u e = (
  λ nil. cc,
  elim (Bool-cases (is_supported (m.detect_content_type (sniffed (b ∷ bytes))))) [
    | inl y ↦ y
    | inr n ↦ absurd (cc (rw n at e))
  ],
  ground arith,
)

-- A file that becomes an upload is there, is not empty, and is of a supported type by its first 512
-- bytes; the upload has that type, no hash and no text yet, and what it was given.
pub new_uploaded_file-ok :
    (m : Machine) (filename path : String) (thumbs : List ThumbFile) (h h' : Host)
    (u : UploadedFile)
    → new_uploaded_file m filename path thumbs h ≡ (ok u, h')
    → (bytes : Bytes) × (lookup path h.disk ≡ some bytes)
      × (bytes ≢ [])
      × (is_supported (m.detect_content_type (sniffed bytes)) ≡ true)
      × (u ≡ record {
        filename = filename;
        path = path;
        mime = m.detect_content_type (sniffed bytes);
        hash = "";
        ocr_text = "";
        thumbs = thumbs;
      })
      × (h' ≡ h)
unfolding new_uploaded_file
new_uploaded_file-ok m filename path thumbs h h' u e = elim (Option-cases (lookup path h.disk)) [
  | inl missing ↦ ground arith
  | inr (bytes, found) ↦
      let (nonempty, supported, same) =
        check_type-ok m filename path thumbs bytes u (ground arith) in
      (bytes, found, nonempty, supported, same, ground arith)
]

check_type-refused :
    (m : Machine) (filename path : String) (thumbs : List ThumbFile) (bytes : Bytes)
    → (bytes ≡ []) ⊎ (is_supported (m.detect_content_type (sniffed bytes)) ≡ false)
    → (e : String) × (check_type m filename path thumbs bytes ≡ err e)
check_type-refused m filename path thumbs [] h = ("EOF", refl)
check_type-refused m filename path thumbs (b ∷ bytes) (inl e) = absurd (cc)
check_type-refused m filename path thumbs (b ∷ bytes) (inr e) =
    ("Unsupported file type!", ground arith)

pub new_uploaded_file-refused :
    (m : Machine) (filename path : String) (thumbs : List ThumbFile) (h : Host) (bytes : Bytes)
    → lookup path h.disk ≡ some bytes
    → (bytes ≡ []) ⊎ (is_supported (m.detect_content_type (sniffed bytes)) ≡ false)
    → (e : String) × (new_uploaded_file m filename path thumbs h ≡ (err e, h))
unfolding new_uploaded_file
new_uploaded_file-refused m filename path thumbs h bytes found bad =
    let (e, refused) = check_type-refused m filename path thumbs bytes bad in (e, ground arith)

-- Whether `Clean` removes the file at a path.
abbrev pub owns : UploadedFile → String → Bool
owns u path = u.path == path || any (λ t. t.local_path == path) u.thumbs

lookup-remove_thumbs :
    (thumbs : List ThumbFile) (h : Host) (path : String)
    → lookup path (remove_thumbs thumbs h).disk
      ≡ (if any (λ t. t.local_path == path) thumbs then none else lookup path h.disk)
unfolding remove_thumbs
lookup-remove_thumbs [] h path = refl
lookup-remove_thumbs (t ∷ thumbs) h path = ground (
  arith,
  lookup-remove_thumbs thumbs (remove t.local_path h) path,
  lookup-erase path t.local_path h.disk,
)

-- `Clean` removes the file of the upload and those of its thumbnails, and no other file.
pub lookup-clean :
    (u : UploadedFile) (h : Host) (path : String)
    → lookup path (clean u h).disk ≡ (if owns u path then none else lookup path h.disk)
unfolding clean
lookup-clean u h path =
    ground
      (arith, lookup-remove_thumbs u.thumbs (remove u.path h) path, lookup-erase path u.path h.disk)
