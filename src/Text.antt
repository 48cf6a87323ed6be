-- ===== src/Text.antt =====
-- The parts of Go's `strings`, `strconv` and `net/textproto` packages that the program calls. A Go
-- string is a list of bytes. The letter cases are those of ASCII.
pub mod Laws
pub mod Decimal
use Prim.Native.Char.{code}
use Prim.Native.String
use go_relax.Base.{
  ℕ, zero, suc, ◌+◌, ◌-◌, ◌*◌, ◌/◌, ◌%◌, String, Bool, true, false, not, ◌&&◌, ◌||◌, Option, none,
  some, List, [], ◌∷◌, ◌++◌, map, ltb, leb, ◌==◌, if◌then◌else◌, length, take, drop,
}

abbrev pub Text : Type 0
Text = List ℕ

-- The bytes of a literal in ASCII.
unfoldable pub codes : String → Text
codes String.[] = []
codes (String.◌∷◌ c s) = code c ∷ codes s

unfoldable pub text_eq : Text → Text → Bool
text_eq [] [] = true
text_eq (a ∷ s) (b ∷ t) = a == b && text_eq s t
text_eq _ _ = false

abbrev pub is_empty : Text → Bool
is_empty [] = true
is_empty (c ∷ s) = false

-- strings.HasPrefix s prefix
unfoldable pub has_prefix : Text → Text → Bool
has_prefix s [] = true
has_prefix [] (p ∷ ps) = false
has_prefix (c ∷ s) (p ∷ ps) = c == p && has_prefix s ps

-- strings.Contains s sub
unfoldable pub contains : Text → Text → Bool
unfolding has_prefix
contains [] sub = has_prefix [] sub
contains (c ∷ s) sub = has_prefix (c ∷ s) sub || contains s sub

abbrev pub has_byte : ℕ → Text → Bool
has_byte b [] = false
has_byte b (c ∷ s) = c == b || has_byte b s

-- What stands behind the first `b`, where there is one.
unfoldable pub after_first : ℕ → Text → Option Text
after_first b [] = none
after_first b (c ∷ s) = if c == b then some s else after_first b s

-- What stands before and behind the last `b`, where there is one: s[:i] and s[i+1:] for
-- i = strings.LastIndex(s, b).
unfoldable pub cut_last : ℕ → Text → Option (Text × Text)
cut_last b [] = none
cut_last b (c ∷ s) = elim (cut_last b s) [
  | some (before, behind) ↦ some (c ∷ before, behind)
  | none ↦ if c == b then some ([], s) else none
]

-- The first segment up to `b`, and the others.
abbrev pub split_cons : Bool → ℕ → Text × List Text → Text × List Text
split_cons true c (first, others) = ([], first ∷ others)
split_cons false c (first, others) = (c ∷ first, others)

unfoldable pub split_first : ℕ → Text → Text × List Text
split_first b [] = ([], [])
split_first b (c ∷ s) = split_cons (c == b) c (split_first b s)

-- strings.Split s "b", for a separator of one byte
unfoldable pub split : Text → ℕ → List Text
unfolding split_first
split s b = let (first, others) = split_first b s in first ∷ others

-- strings.Split s "xy", for a separator of two bytes
unfoldable pub split_pair : ℕ → ℕ → Text → Text → List Text
split_pair x y cur [] = cur ∷ []
split_pair x y cur (c ∷ []) = (cur ++ c ∷ []) ∷ []
split_pair x y cur (c ∷ d ∷ s) =
    let cut = cur ∷ split_pair x y [] s in
    let on = split_pair x y (cur ++ c ∷ []) (d ∷ s) in if c == x && d == y then cut else on

-- strings.Join parts sep
unfoldable pub join : List Text → Text → Text
join [] sep = []
join (p ∷ []) sep = p
join (p ∷ q ∷ ps) sep = p ++ sep ++ join (q ∷ ps) sep

-- strings.TrimLeft and strings.TrimRight with the set of bytes that pass a test
unfoldable pub trim_left : (ℕ → Bool) → Text → Text
trim_left p [] = []
trim_left p (c ∷ s) = if p c then trim_left p s else c ∷ s

abbrev pub keep_cons : (ℕ → Bool) → ℕ → Text → Text
keep_cons p c [] = if p c then [] else c ∷ []
keep_cons p c (d ∷ s) = c ∷ d ∷ s

unfoldable pub trim_right : (ℕ → Bool) → Text → Text
trim_right p [] = []
trim_right p (c ∷ s) = keep_cons p c (trim_right p s)

unfoldable pub trim : (ℕ → Bool) → Text → Text
unfolding trim_left trim_right
trim p s = trim_right p (trim_left p s)

abbrev pub is_space : ℕ → Bool
is_space c = c == 32 || (leb 9 c && leb c 13)

-- strings.TrimSpace s
unfoldable pub trim_space : Text → Text
unfolding trim
trim_space s = trim is_space s

-- strings.TrimPrefix s prefix
unfoldable pub trim_prefix : Text → Text → Text
unfolding has_prefix
trim_prefix s p = if has_prefix s p then drop (length p) s else s

-- strings.TrimSuffix s suffix
unfoldable pub trim_suffix : Text → Text → Text
unfolding text_eq
trim_suffix s p =
    if leb (length p) (length s) && text_eq (drop (length s - length p) s) p
    then take (length s - length p) s
    else s

abbrev pub is_upper : ℕ → Bool
is_upper c = leb b'A' c && leb c b'Z'

abbrev pub is_lower : ℕ → Bool
is_lower c = leb b'a' c && leb c b'z'

abbrev pub is_digit : ℕ → Bool
is_digit c = leb b'0' c && leb c b'9'

abbrev pub upper_byte : ℕ → ℕ
upper_byte c = if is_lower c then c - 32 else c

abbrev pub lower_byte : ℕ → ℕ
lower_byte c = if is_upper c then c + 32 else c

-- strings.ToUpper, strings.ToLower
unfoldable pub to_upper : Text → Text
to_upper s = map upper_byte s

unfoldable pub to_lower : Text → Text
to_lower s = map lower_byte s

-- strconv.Itoa of a number that is not negative: at most `fuel` digits, the last ones first.
unfoldable pub itoa_fuel : ℕ → ℕ → Text → Text
itoa_fuel zero n out = out
itoa_fuel (suc fuel) n out =
    let rest = itoa_fuel fuel (n / 10) ((b'0' + n % 10) ∷ out) in
    if ltb n 10 then (b'0' + n) ∷ out else rest

unfoldable pub itoa : ℕ → Text
unfolding itoa_fuel
itoa n = itoa_fuel (suc n) n []
