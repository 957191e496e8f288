-- ===== src/Upload/Ratio.antt =====
-- `regexp.MustCompile("(.*):(.*)")` of uploadedfile/thumbfile.go, as the function it computes: the
-- first line with a colon, parted at its last colon (`.*` is greedy and stops at a line's end).
pub mod Split
use Prim.Native.Char.{code}
use mandible.Base.{String, Option, none, some, ◌==◌, nat_eq, if◌then◌else◌}

-- Of a text: its first line, that line parted, and the first later line that can be parted.
record Parted : Type 0 where
  line : String
  here : Option (String × String)
  later : Option (String × String)

first_of_two : Option (String × String) → Option (String × String) → Option (String × String)
first_of_two (some x) _ = some x
first_of_two none y = y

part : String → Parted
part String.[] = record { line = ""; here = none; later = none }
part (String.◌∷◌ c s) =
    let r = part s in
    if code c == 10
    then record { line = ""; here = none; later = first_of_two r.here r.later }
    else record {
      line = String.◌∷◌ c r.line;
      here = elim r.here [
        | some (a, b) ↦ some (String.◌∷◌ c a, b)
        | none ↦ if code c == b':' then some ("", r.line) else none
      ];
      later = r.later;
    }

unfoldable pub match_ratio : String → Option (String × String)
unfolding part first_of_two
match_ratio s = let r = part s in first_of_two r.here r.later
