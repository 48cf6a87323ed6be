-- ===== src/Router/Segment.antt =====
-- `segmentExp` of router.go: a path segment expression becomes the text of a regular expression.
-- The engine of package regexp is a parameter: `compile` is `regexp.Compile`, and its `none` the
-- panic of `MustCompile`.
use go_relax.Base.{
  ℕ, zero, suc, ◌+◌, ◌-◌, Bool, ◌&&◌, ◌||◌, Option, none, some, String, List, [], ◌∷◌, ◌++◌, map,
  ◌==◌, if◌then◌else◌, length, take, drop, ◌≡◌, refl,
}
use go_relax.Text.{Text, codes, has_prefix, contains, is_upper, is_lower, is_digit, join}

-- A compiled expression: `SubexpNames`, and `FindStringSubmatch` with `none` for nil. The first
-- entry of each list is that of the whole expression.
pub record Regexp : Type 0 where
  pub names : List Text
  pub find : Text → Option (List Text)

-- \w
is_word : ℕ → Bool
is_word c = is_upper c || is_lower c || is_digit c || c == b'_'

-- The longest run of \w at the front, and the rest.
span_word : Text → Text × Text
unfolding is_word
span_word [] = ([], [])
span_word (c ∷ s) = let (w, rest) = span_word s in if is_word c then (c ∷ w, rest) else ([], c ∷ s)

abbrev named_part : Text × Text → Option Text
named_part ([], rest) = none
named_part (c ∷ w, []) = none
named_part (c ∷ w, d ∷ rest) = if d == b'}' then some (c ∷ w) else none

-- The name in a match of `front\w+\}` at the head of a text.
match_pse : Text → Text → Option Text
unfolding span_word has_prefix
match_pse front s =
    if has_prefix s front then named_part (span_word (drop (length front) s)) else none

-- `ReplaceAllStringFunc` for the expression `front\w+\}`: matches are replaced from left to right.
-- The first argument is the number of bytes that are still part of a match.
replace_from : Text → (Text → Text) → ℕ → Text → Text
replace_from front f n [] = []
replace_from front f (suc n) (c ∷ s) = replace_from front f n s
replace_from front f zero (c ∷ s) = elim (match_pse front (c ∷ s)) [
  | some name ↦ f name ++ replace_from front f (length front + length name) s
  | none ↦ c ∷ replace_from front f zero s
]

-- `fmt.Sprintf` of a template: the pieces of the template, with the name between them.
template : List String → Text → Text
unfolding join codes
template pieces name = join (map codes pieces) name

expand : String → List String → Text → Text
unfolding match_pse replace_from template codes
expand front pieces s = replace_from (codes front) (template pieces) zero s

-- strings.Replace pattern "*" "{wild}" -1
expand_star : Text → Text
unfolding codes
expand_star [] = []
expand_star (c ∷ s) = if c == b'*' then codes "{wild}" ++ expand_star s else c ∷ expand_star s

abbrev date_pieces : List String
date_pieces =
    "(?P<" ∷ ">((?P<" ∷ "_year>\\d{4})([/-]?(?P<" ∷ "_mon>(0[1-9])|(1[012]))([/-]?(?P<"
    ∷ "_mday>(0[1-9])|([12]\\d)|(3[01])))?)?(?:T(?P<" ∷ "_hour>([01][0-9])|(?:2[0123]))(\\:?(?P<"
    ∷ "_min>[0-5][0-9])(\\:?(?P<"
    ∷ "_sec>[0-5][0-9]([\\,\\.]\\d{1,10})?))?)?(?:Z|([\\-+](?:([01][0-9])|(?:2[0123]))(\\:?(?:[0-5][0-9]))?))?)?))"
    ∷ []

abbrev geo_pieces : List String
geo_pieces =
    "(?P<" ∷ "_lat>\\-?\\d+(\\.\\d+)?)[,;](?P<" ∷ "_lon>\\-?\\d+(\\.\\d+)?)([,;](?P<"
    ∷ "_alt>\\-?\\d+(\\.\\d+)?))?(((?:;crs=)(?P<" ∷ "_crs>[\\w\\-]+))?((?:;u=)(?P<"
    ∷ "_u>\\-?\\d+(\\.\\d+)?))?)?" ∷ []

abbrev uuid_piece : String
uuid_piece =
    ">[[:xdigit:]]{8}\\-?[[:xdigit:]]{4}\\-?[[:xdigit:]]{4}\\-?[[:xdigit:]]{4}\\-?[[:xdigit:]]{12})"

-- The rewriting steps, in the order of the source.
unfoldable pub pattern_of : Text → Text
unfolding expand expand_star
pattern_of pattern =
    let p0 = expand "{" ("(?P<" ∷ ">.+)" ∷ []) (expand_star pattern) in
    let p1 = expand "{word:" ("(?P<" ∷ ">\\w+)" ∷ []) p0 in
    let p2 = expand "{date:" date_pieces p1 in
    let p3 = expand "{geo:" geo_pieces p2 in
    let p4 = expand "{hex:" ("(?P<" ∷ ">(?:0x)?[[:xdigit:]]+)" ∷ []) p3 in
    let p5 = expand "{uuid:" ("(?P<" ∷ uuid_piece ∷ []) p4 in
    let p6 = expand "{float:" ("(?P<" ∷ ">[\\-+]?\\d+\\.\\d+)" ∷ []) p5 in
    let p7 = expand "{uint:" ("(?P<" ∷ ">\\d{1,18})" ∷ []) p6 in
    expand "{int:" ("(?P<" ∷ ">[-+]?\\d{1,18})" ∷ []) p7

unfoldable pub segment_exp : (Text → Option Regexp) → Text → Option Regexp
unfolding pattern_of codes has_prefix
segment_exp compile pattern =
    if has_prefix pattern (codes "{re:")
    then compile (take (length pattern - 1 - 4) (drop 4 pattern))
    else compile (pattern_of pattern)

-- A segment with braces or a star is tried as an expression.
unfoldable pub is_pse : Text → Bool
unfolding contains codes
is_pse s = (contains s (codes "{") && contains s (codes "}")) || contains s (codes "*")

pattern_of_tests :
    (pattern_of (codes "@{word:name}") ≡ codes "@(?P<name>\\w+)")
    × (pattern_of (codes "*") ≡ codes "(?P<wild>.+)")
    × (pattern_of (codes "{uint:id}-{int:n}") ≡ codes "(?P<id>\\d{1,18})-(?P<n>[-+]?\\d{1,18})")
unfolding pattern_of
pattern_of_tests = (refl, refl, refl)
