-- ===== src/Diagnostics/Results.antt =====
-- The lines that `getDiagnosticsResult` of pkg/diagnostics/dell.go reads, and the grades of the tests.
use ironic_temper.Base.{
  ℕ, String, Bool, true, ◌&&◌, Option, none, some, List, [], ◌∷◌, ◌=ₛ◌, leb, if◌then◌else◌,
}
use ironic_temper.Base.Dict.{Dict, lookup, insert}
use ironic_temper.Go.{Result, ok, err, panics, Exec}
use ironic_temper.Text.{contains}
use ironic_temper.Text.Cut.{part_1, between}

-- The state of the loop over the lines: `test` and `results`.
pub record Results : Type 0 where
  pub test : String
  pub results : Dict ℕ

abbrev pub no_results : Results
no_results = record { test = ""; results = [] }

abbrev index_panic : String
index_panic = "index out of range"

abbrev named : Results → Option String → Result Results
named r none = panics index_panic
named r (some name) = ok (record { test = name; results = insert name 0 r.results })

-- A line with a mark names the next test: `rs[1]`, of a match that may be nil.
unfoldable pub name_test : String → Results → Result Results
name_test line r = if contains line "**" then named r (between "**" line) else ok r

unfoldable pub grade : String → ℕ
grade text = if text =ₛ "Pass" then 2 else if text =ₛ "Warning" then 1 else 0

abbrev graded : Results → Option String → Result Results
graded r none = panics index_panic
graded r (some text) = ok (record r { results = insert r.test (grade text) r.results })

abbrev graded_if_known : Results → String → Option ℕ → Result Results
graded_if_known r line none = ok r
graded_if_known r line (some n) = graded r (part_1 " : " line)

unfoldable pub grade_test : String → Results → Result Results
grade_test line r =
    if contains line "Test Results :"
    then graded_if_known r line (lookup r.test r.results)
    else ok r

abbrev and_grade : String → Result Results → Result Results
and_grade line (ok r) = grade_test line r
and_grade line (err e) = err e
and_grade line (panics p) = panics p

-- `for scanner.Scan()`
unfoldable pub scan : List String → Results → Result Results
unfolding name_test
scan [] r = ok r
scan (line ∷ lines) r = elim (and_grade line (name_test line r)) [
  | ok r' ↦ scan lines r'
  | err e ↦ err e
  | panics p ↦ panics p
]

abbrev pub of_result : {S A : Type 0} → Result A → Exec S A
of_result r s = (r, s)

-- The loop over the results: whether every test has passed or has given a warning.
unfoldable pub all_passed : Dict ℕ → Bool
all_passed [] = true
all_passed ((name, i) ∷ rest) = leb 1 i && all_passed rest
