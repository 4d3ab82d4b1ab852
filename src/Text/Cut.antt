-- ===== src/Text/Cut.antt =====
-- Functions of Go's package strings that look for a text of several characters.
use ironic_temper.Base.{
  ◌≡◌, refl, String, ◌<>◌, Char, code, Option, none, some, ◌==◌, if◌then◌else◌,
}

-- The text behind a prefix.
unfoldable pub strip : String → String → Option String
strip String.[] s = some s
strip (String.◌∷◌ d p) String.[] = none
strip (String.◌∷◌ d p) (String.◌∷◌ c s) =
    let rest = strip p s in if code c == code d then rest else none

abbrev cons_before : Char → Option (String × String) → Option (String × String)
cons_before c none = none
cons_before c (some (before, after)) = some (String.◌∷◌ c before, after)

abbrev found_here : Option String → Option (String × String) → Option (String × String)
found_here none further = further
found_here (some after) further = some ("", after)

-- `strings.Cut(s, sep)`: the texts before and after the first `sep`, which is not empty.
unfoldable pub cut : String → String → Option (String × String)
unfolding strip
cut sep String.[] = none
cut sep (String.◌∷◌ c s) =
    let further = cons_before c (cut sep s) in found_here (strip sep (String.◌∷◌ c s)) further

abbrev joined : String → Option (String × String) → String
joined s none = s
joined s (some (before, after)) = before <> after

-- `strings.Replace(s, old, "", 1)`
unfoldable pub remove_first : String → String → String
unfolding cut
remove_first old s = joined s (cut old s)

abbrev first_part : String → Option (String × String) → String
first_part s none = s
first_part s (some (before, after)) = before

abbrev second_part : String → Option (String × String) → Option String
second_part sep none = none
second_part sep (some (before, after)) = some (first_part after (cut sep after))

-- `strings.Split(s, sep)[1]`, if there are two parts.
unfoldable pub part_1 : String → String → Option String
unfolding cut
part_1 sep s = second_part sep (cut sep s)

abbrev closed : Option (String × String) → Option String
closed none = none
closed (some (before, after)) = some before

abbrev closing : String → Option (String × String) → Option String
closing mark none = none
closing mark (some (before, after)) = closed (cut mark after)

-- The text between the first two marks: the group of the regular expression `mark(.*?)mark`.
unfoldable pub between : String → String → Option String
unfolding cut
between mark s = closing mark (cut mark s)

between_tests : between "**" "x **CPU** y" ≡ some "CPU"
unfolding between
between_tests = refl

part_1_tests : part_1 " : " "Test Results : Pass" ≡ some "Pass"
unfolding part_1
part_1_tests = refl

part_1_of_one : part_1 " : " "Test Results :" ≡ none
unfolding part_1
part_1_of_one = refl

remove_first_tests : remove_first "400: " "400: {}" ≡ "{}"
unfolding remove_first
remove_first_tests = refl
