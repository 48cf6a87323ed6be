-- ===== src/Util.antt =====
-- util.go: request identifiers, path extensions, preferences and what a request tells of its client.
-- The random UUID of `NewRequestID` is an argument; float32 and its parser are a parameter.
pub mod Laws
pub mod Client
pub mod Preferences
use go_relax.Base.{
  ℕ, zero, suc, ◌+◌, Bool, true, false, ◌&&◌, ◌||◌, not, Option, none, some, List, [], ◌∷◌, ◌++◌,
  ltb, leb, ◌==◌, if◌then◌else◌, length, drop,
}
use go_relax.Text.{
  Text, codes, text_eq, is_empty, has_prefix, has_byte, is_upper, is_lower, is_digit, cut_last,
  split, split_pair, trim_space, trim,
}
use go_relax.Http.Header
use go_relax.Http.Request.{Request}

-- Letters, digits and -_.~%+
unfoldable pub is_id_byte : ℕ → Bool
unfolding codes
is_id_byte c = is_upper c || is_lower c || is_digit c || has_byte c (codes "-_.~%+")

-- The loop over the identifier, with the index of the last byte that was seen: `none` is a return
-- with a new identifier. The case `i > 199` stands behind those of the bytes that are allowed, so
-- only a byte that is not allowed reaches it, and it falls through to the same return.
unfoldable pub scan_id : ℕ → ℕ → Text → Option ℕ
scan_id i l [] = some l
scan_id i l (c ∷ s) = if is_id_byte c then scan_id (suc i) i s else none

unfoldable pub new_request_id : Text → Text → Text
unfolding scan_id
new_request_id fresh [] = fresh
new_request_id fresh (c ∷ s) = elim (scan_id 0 0 (c ∷ s)) [
  | none ↦ fresh
  | some l ↦ if ltb l 20 then fresh else c ∷ s
]

unfoldable pub path_ext : Text → Text
path_ext path = elim (cut_last b'.' path) [ none ↦ [] | some (before, behind) ↦ b'.' ∷ behind ]

-- float32: parsing by strconv.ParseFloat and the comparison `>`.
pub record Quality : Type 1 where
  pub Q : Type 0
  pub zero_q : Q
  pub one_q : Q
  pub competitive : Q
  pub gt : Q → Q → Bool
  pub parse_float : Text → Option Q

-- strings.SplitN s sep 2 for a separator that is not empty
unfoldable pub split_once : Text → Text → Text × Option Text
unfolding has_prefix
split_once sep [] = ([], none)
split_once sep (c ∷ s) =
    let (first, rest) = split_once sep s in
    if has_prefix (c ∷ s) sep then ([], some (drop (length sep) (c ∷ s))) else (c ∷ first, rest)

module _ (q : Quality) where
  open q use {Q, zero_q, one_q, competitive, gt, parse_float}

  abbrev pub Prefs : Type 0
  Prefs = List (Text × Q)

  unfoldable pub set_pref : Text → Q → Prefs → Prefs
  unfolding text_eq
  set_pref key v [] = (key, v) ∷ []
  set_pref key v ((k, w) ∷ more) =
      if text_eq k key then (key, v) ∷ more else (k, w) ∷ set_pref key v more

  unfoldable pub pref : Text → Prefs → Option Q
  unfolding text_eq
  pref key [] = none
  pref key ((k, w) ∷ more) = if text_eq k key then some w else pref key more

  -- One round of the loop: the quality is one where none is given.
  unfoldable pub parse_preference : Text → Prefs → Option Prefs
  unfolding split_once set_pref trim_space codes
  parse_preference raw prefs =
      let (name, rest) = split_once (codes ";q=") (trim_space raw) in
      elim rest [
        | none ↦ some (set_pref name one_q prefs)
        | some digits ↦ elim (parse_float digits) [
          | none ↦ none
          | some f ↦ some (set_pref name f (set_pref name one_q prefs))
        ]
      ]

  unfoldable pub parse_all : List Text → Prefs → Option Prefs
  parse_all [] prefs = some prefs
  parse_all (raw ∷ more) prefs = elim (parse_preference raw prefs) [
    | none ↦ none
    | some prefs' ↦ parse_all more prefs'
  ]

  unfoldable pub parse_preferences : Text → Option Prefs
  unfolding parse_all split
  parse_preferences values = parse_all (split values b',') []

unfoldable pub is_request_ssl : Request → Bool
unfolding Header.get text_eq codes
is_request_ssl r =
    r.tls
    || text_eq r.scheme (codes "https")
    || text_eq (Header.get r.header (codes "X-Forwarded-Proto")) (codes "https")

abbrev pub first_text : List Text → Text
first_text [] = []
first_text (x ∷ xs) = x

-- The value behind "for=", without quotes and brackets. The outer `none` is the panic of `value[0]`
-- at an empty value, the inner one a step on to the next header.
unfoldable pub forwarded_for : Text → Option (Option Text)
unfolding split codes has_prefix trim
forwarded_for v =
    let front = first_text (split v b',') in
    let value = trim (λ c. has_byte c (codes "\"][")) (drop 4 front) in
    if is_empty v || not (has_prefix front (codes "for="))
    then some none
    else elim value [ [] ↦ none | c ∷ s ↦ if c == b'_' then some none else some (some (c ∷ s)) ]

unfoldable pub x_forwarded_for : Text → Option Text
unfolding split_pair codes text_eq
x_forwarded_for v =
    let front = first_text (split_pair b',' 32 [] v) in
    if is_empty v || text_eq front (codes "unknown") then none else some front

-- `none` is a panic.
unfoldable pub get_real_ip : Request → Option Text
unfolding Header.get forwarded_for x_forwarded_for codes
get_real_ip r =
    let other : Text = elim (x_forwarded_for (Header.get r.header (codes "X-Forwarded-For"))) [
      | some ip ↦ ip
      | none ↦
          let v = Header.get r.header (codes "X-Real-IP") in
          if is_empty v then codes "unknown" else v
    ] in
    elim (forwarded_for (Header.get r.header (codes "Forwarded"))) [
      | none ↦ none
      | some (some ip) ↦ some ip
      | some none ↦ some other
    ]
