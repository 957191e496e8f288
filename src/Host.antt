-- ===== src/Host.antt =====
-- The machine that the program runs on, as far as imageprocessor/ and uploadedfile/ use it: the
-- regular files, and the commands that have been started.
use mandible.Base.{◌⊎◌, String, ℕ, Bool, List, [], Option, none, some}
use mandible.Base.Int.{ℤ}
use mandible.Base.Dict.{Dict, lookup, insert, erase}
use mandible.Base.Result.{Error, Result, ok, err, panic, Action, ⊤, modify}

abbrev pub Bytes : Type 0
Bytes = List ℕ

abbrev pub Disk : Type 0
Disk = Dict Bytes

pub record Invocation : Type 0 where
  pub command : String
  pub args : List String

-- `ran` lists the commands started so far, the last one first.
pub record Host : Type 0 where
  pub disk : Disk
  pub ran : List Invocation

-- What became of a command: the seconds after which it ended, what `Wait` says of it, and the
-- files as they are when it has ended or was killed.
pub record Execution : Type 0 where
  pub seconds : ℕ
  pub wait_error : Option Error
  pub disk : Disk

pub data ImageFormat : Type 0 where
  gif_format png_format jpeg_format : ImageFormat

-- The operating system and the libraries: commands, `http.DetectContentType`, the `DecodeConfig`
-- of the three image packages, the speller of go-aspell, the text that a file's bytes spell,
-- `strings.ToLower`, and why `os.Create` refuses a path, if it does.
pub record Machine : Type 0 where
  pub exec : String → List String → Disk → Execution
  pub detect_content_type : Bytes → String
  pub decode_config : ImageFormat → Bytes → Error ⊎ (ℤ × ℤ)
  pub speller : Result (String → Bool)
  pub text_of : Bytes → String
  pub to_lower : String → String
  pub create_error : String → Disk → Option Error

-- `os.Open` and a read of the whole file.
unfoldable pub read_file : String → Action Host Bytes
read_file path h = elim (lookup path h.disk) [
  | none ↦ (err "no such file or directory", h)
  | some bytes ↦ (ok bytes, h)
]

-- `os.Create`: a file that was there is emptied.
unfoldable pub create_file : Machine → String → Action Host ⊤
create_file m path h = elim (m.create_error path h.disk) [
  | some e ↦ (err e, h)
  | none ↦ (ok tt, record h { disk = insert path [] h.disk })
]

-- `io.Copy` between two open files: the source is read as it is by now.
unfoldable pub copy_file : String → String → Action Host ⊤
unfolding read_file
copy_file src target h =
    let (r, h') = read_file src h in
    elim r [
      | err e ↦ (err e, h')
      | panic ↦ (panic, h')
      | ok bytes ↦ (ok tt, record h' { disk = insert target bytes h'.disk })
    ]

-- `os.Remove`, its error ignored.
abbrev pub remove : String → Host → Host
remove path h = record h { disk = erase path h.disk }

abbrev pub remove_file : String → Action Host ⊤
remove_file path = modify (remove path)
