-- ===== src/Store/Mapper.antt =====
-- imagestore/namepathmapper.go
pub mod Paths
use mandible.Base.{
  ℕ, zero, suc, ◌-◌, String, ◌<>◌, true, false, Option, none, some, ◌==◌, string_eq,
}
use mandible.Base.{if◌then◌else◌}
use mandible.Base.Text.{text_length, has_prefix}
use mandible.Store.Types.{StoreObject}

-- A compiled regular expression, by its method `ReplaceAllString`: the source, then the template.
pub record Regexp : Type 0 where
  pub replace_all_string : String → String → String

pub record NamePathMapper : Type 0 where
  pub regex : Option Regexp
  pub replace : String

-- The text without its first `skip` characters, and with `new` for each `old` from there on.
unfoldable pub replace_from : String → String → ℕ → String → String
replace_from old new skip String.[] = ""
replace_from old new (suc skip) (String.◌∷◌ c s) = replace_from old new skip s
replace_from old new zero (String.◌∷◌ c s) = elim (has_prefix (String.◌∷◌ c s) old) [
  | true ↦ new <> replace_from old new (text_length old - 1) s
  | false ↦ String.◌∷◌ c (replace_from old new zero s)
]

-- `strings.Replace(s, old, new, -1)`, where `old` is not empty.
unfoldable pub replace_all : String → String → String → String
unfolding replace_from text_length has_prefix
replace_all old new s = replace_from old new 0 s

-- `NewNamePathMapper`; `none` is the panic of `MustCompile`.
unfoldable pub new_name_path_mapper :
    (String → Option Regexp) → String → String → Option NamePathMapper
new_name_path_mapper compile expr mapping =
    if expr == "" then some (record { regex = none; replace = mapping }) else elim (compile expr) [
      | none ↦ none
      | some r ↦ some (record { regex = some r; replace = mapping })
    ]

unfoldable pub map_to_path : NamePathMapper → StoreObject → String
unfolding replace_all
map_to_path m obj =
    let repl = replace_all "${ImageSize}" obj.size (replace_all "${ImageName}" obj.id m.replace) in
    elim m.regex [ none ↦ repl | some r ↦ r.replace_all_string obj.id repl ]
