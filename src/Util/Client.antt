-- ===== src/Util/Client.antt =====
-- The address of a client in util.go, and where reading it panics.
use go_relax.Base.{
  ℕ, Bool, true, ◌&&◌, not, is_some, [], ◌∷◌, ◌≡◌, refl, ◌==◌, if◌then◌else◌, arith, drop, ap, ◌∙◌,
}
use go_relax.Text.{
  Text, codes, has_prefix, has_byte, is_empty, split, split_first, trim, trim_left, trim_right,
  keep_cons,
}
use go_relax.Http.Header
use go_relax.Http.Request.{Request}
use go_relax.Util.{forwarded_for, get_real_ip}

-- The text before the first `b`.
unfoldable pub up_to : ℕ → Text → Text
up_to b [] = []
up_to b (c ∷ s) = if c == b then [] else c ∷ up_to b s

-- Every byte passes a test.
unfoldable pub all_bytes : (ℕ → Bool) → Text → Bool
all_bytes p [] = true
all_bytes p (c ∷ s) = p c && all_bytes p s

split_first-up_to : (b : ℕ) (s : Text) → (split_first b s).0 ≡ up_to b s
unfolding split_first up_to
split_first-up_to b [] = refl
split_first-up_to b (c ∷ s) = ground (arith, split_first-up_to b s)

keep_cons-is_empty :
    (p : ℕ → Bool) (c : ℕ) (s : Text) → is_empty (keep_cons p c s) ≡ (p c && is_empty s)
keep_cons-is_empty p c [] = ground arith
keep_cons-is_empty p c (d ∷ s) = ground arith

trim_right-all_bytes : (p : ℕ → Bool) (s : Text) → is_empty (trim_right p s) ≡ all_bytes p s
unfolding trim_right all_bytes
trim_right-all_bytes p [] = refl
trim_right-all_bytes p (c ∷ s) =
    keep_cons-is_empty p c (trim_right p s) ∙ ap (λ b. p c && b) (trim_right-all_bytes p s)

trim_left-all_bytes : (p : ℕ → Bool) (s : Text) → all_bytes p (trim_left p s) ≡ all_bytes p s
unfolding trim_left all_bytes
trim_left-all_bytes p [] = refl
trim_left-all_bytes p (c ∷ s) = ground (arith, trim_left-all_bytes p s)

trim-all_bytes : (p : ℕ → Bool) (s : Text) → is_empty (trim p s) ≡ all_bytes p s
unfolding trim
trim-all_bytes p s = trim_right-all_bytes p (trim_left p s) ∙ trim_left-all_bytes p s

forwarded_for-is_some :
    (v : Text)
    → is_some (forwarded_for v)
      ≡ not (
          has_prefix (up_to b',' v) (codes "for=")
          && all_bytes (λ c. has_byte c (codes "\"][")) (drop 4 (up_to b',' v)))
unfolding forwarded_for split
forwarded_for-is_some v = ground (
  arith,
  split_first-up_to b',' v,
  trim-all_bytes (λ c. has_byte c (codes "\"][")) (drop 4 (up_to b',' v)),
)

-- Reading the address of a client panics exactly if the first element of the header Forwarded begins
-- with "for=" and has nothing but quotes and brackets behind it.
pub get_real_ip-is_some :
    (r : Request)
    → is_some (get_real_ip r) ≡ (
        let front = up_to b',' (Header.get r.header (codes "Forwarded")) in
        not (
          has_prefix front (codes "for=")
          && all_bytes (λ c. has_byte c (codes "\"][")) (drop 4 front)))
unfolding get_real_ip
get_real_ip-is_some r =
    ground (arith, forwarded_for-is_some (Header.get r.header (codes "Forwarded")))
