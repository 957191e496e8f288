-- ===== src/Server/Http.antt =====
-- What server/server.go uses of net/http and path: requests, response writers and base names.
use Prim.Native.Char.{code}
use mandible.Base.{
  ℕ, String, List, [], ◌∷◌, Option, none, some, ◌==◌, nat_eq, string_eq, if◌then◌else◌,
}
use mandible.Base.Dict.{Dict, insert}
use mandible.Base.Result.{Result}
use mandible.Base.Int.{ℤ}
use mandible.Store.Types.{Reader}

-- `header` and `form_value` are "" for what is not there; `form_file` gives a part and its name.
pub record Request : Type 0 where
  pub path : String
  pub header : String → String
  pub form_value : String → String
  pub form_file : String → Result (Reader × String)
  pub vars : Dict String

-- What the client of `download` gets back.
pub record HttpResponse : Type 0 where
  pub status_code : ℕ
  pub content_length : ℤ
  pub body : Reader

-- The headers set so far; once the status is written, the status and the headers sent with it; and
-- what has been written of the body, the last part first.
pub record ResponseWriter (B : Type 0) : Type 0 where
  pub headers : Dict String
  pub sent : Option (ℕ × Dict String)
  pub body : List B

abbrev pub fresh_writer : {B : Type 0} → ResponseWriter B
fresh_writer = record { headers = []; sent = none; body = [] }

module _ {B : Type 0} where
  -- A second status is ignored.
  unfoldable pub write_header : ℕ → ResponseWriter B → ResponseWriter B
  write_header status w = elim w.sent [
    | none ↦ record w { sent = some (status, w.headers) }
    | some _ ↦ w
  ]

  -- `w.Header().Set(key, value)`
  abbrev pub set_header : String → String → ResponseWriter B → ResponseWriter B
  set_header key value w = record w { headers = insert key value w.headers }

  -- Without a status the first write sends 200.
  unfoldable pub write : B → ResponseWriter B → ResponseWriter B
  unfolding write_header
  write b w = let w' = write_header 200 w in record w' { body = b ∷ w'.body }

-- What follows the last slash of a text, if it has one.
after_last_slash : String → Option String
after_last_slash String.[] = none
after_last_slash (String.◌∷◌ c s) = elim (after_last_slash s) [
  | some a ↦ some a
  | none ↦ if code c == b'/' then some s else none
]

-- The text without the slashes at its end.
trim_slashes : String → String
trim_slashes String.[] = ""
trim_slashes (String.◌∷◌ c s) =
    let rest = trim_slashes s in
    if rest == "" then (if code c == b'/' then "" else String.◌∷◌ c "") else String.◌∷◌ c rest

-- `path.Base`
unfoldable pub base_name : String → String
unfolding after_last_slash trim_slashes
base_name path =
    let trimmed = trim_slashes path in
    if path == ""
    then "."
    else if trimmed == ""
    then "/"
    else elim (after_last_slash trimmed) [ none ↦ trimmed | some base ↦ base ]

-- `input[strings.IndexByte(input, ',')+1:]`
unfoldable pub after_comma : String → Option String
after_comma String.[] = none
after_comma (String.◌∷◌ c s) = if code c == b',' then some s else after_comma s

unfoldable pub base64_part : String → String
unfolding after_comma
base64_part input = elim (after_comma input) [ none ↦ input | some rest ↦ rest ]
