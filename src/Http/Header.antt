-- ===== src/Http/Header.antt =====
-- `http.Header` and `textproto.CanonicalMIMEHeaderKey`. A header map is a function from canonical
-- keys; `none` is a missing key.
pub mod Laws
use go_relax.Base.{
  ℕ, Bool, true, false, ◌&&◌, ◌||◌, Option, none, some, List, [], ◌∷◌, ◌++◌, ◌==◌, if◌then◌else◌,
  get_or,
}
use go_relax.Text.{
  Text, codes, text_eq, has_byte, is_upper, is_lower, is_digit, upper_byte, lower_byte,
}

is_token_byte : ℕ → Bool
unfolding codes
is_token_byte c = is_upper c || is_lower c || is_digit c || has_byte c (codes "!#$%&'*+-.^_`|~")

all_token : Text → Bool
unfolding is_token_byte
all_token [] = true
all_token (c ∷ s) = is_token_byte c && all_token s

-- A letter is in upper case at the front and behind a dash, and in lower case elsewhere.
canonical_from : Bool → Text → Text
canonical_from upper [] = []
canonical_from upper (c ∷ s) =
    (if upper then upper_byte c else lower_byte c) ∷ canonical_from (c == b'-') s

-- http.CanonicalHeaderKey
unfoldable pub canonical : Text → Text
unfolding all_token canonical_from
canonical s = if all_token s then canonical_from true s else s

abbrev pub Header : Type 0
Header = Text → Option (List Text)

abbrev pub no_header : Header
no_header key = none

abbrev pub first_value : Option (List Text) → Text
first_value none = []
first_value (some []) = []
first_value (some (v ∷ vs)) = v

-- Header.Get: the first value, or the empty text
unfoldable pub get : Header → Text → Text
unfolding canonical
get h key = first_value (h (canonical key))

-- Header.Values: all values
unfoldable pub values : Header → Text → List Text
unfolding canonical
values h key = get_or (h (canonical key)) []

-- Header.Set
unfoldable pub set : Text → Text → Header → Header
unfolding canonical text_eq
set key value h j = if text_eq (canonical key) j then some (value ∷ []) else h j

-- Header.Add
unfoldable pub add : Text → Text → Header → Header
unfolding canonical text_eq
add key value h j = if text_eq (canonical key) j then some (get_or (h j) [] ++ value ∷ []) else h j

-- Header.Del
unfoldable pub del : Text → Header → Header
unfolding canonical text_eq
del key h j = if text_eq (canonical key) j then none else h j

abbrev pub prefer {ℓ} : {A : Type ℓ} → Option A → Option A → Option A
prefer none b = b
prefer (some a) b = some a

-- for k, v := range from { to[k] = v }
unfoldable pub copy_into : Header → Header → Header
copy_into to from j = prefer (from j) (to j)
