-- ===== src/Util/Laws.antt =====
-- Request identifiers and path extensions of util.go, against descriptions without loops.
use go_relax.Base.{
  ℕ, suc, ◌+◌, ◌-◌, Bool, true, ◌&&◌, none, some, [], ◌∷◌, ◌++◌, ◌≡◌, refl, inl, inr, if◌then◌else◌,
  Option-cases, arith, length, leb, drop, take, ap, sym, ◌∙◌, length-append, append-nil,
}
use go_relax.Text.{Text, trim_suffix, cut_last}
use go_relax.Text.Laws.{cut_last_sound, text_eq_refl}
use go_relax.Util.{is_id_byte, scan_id, new_request_id, path_ext}

pub all_id_bytes : Text → Bool
all_id_bytes [] = true
all_id_bytes (c ∷ s) = is_id_byte c && all_id_bytes s

scan_id_lem :
    (i l c : ℕ) (s : Text)
    → scan_id i l (c ∷ s) ≡ (if all_id_bytes (c ∷ s) then some (i + length s) else none)
unfolding scan_id all_id_bytes
scan_id_lem i l c [] = ground arith
scan_id_lem i l c (d ∷ s) = ground (arith, scan_id_lem (suc i) i d s)

-- An identifier is kept exactly if it has at least 21 bytes, all of them allowed; else the new one
-- is taken.
pub new_request_id_lem :
    (fresh id : Text)
    → new_request_id fresh id ≡ (if all_id_bytes id && leb 21 (length id) then id else fresh)
unfolding new_request_id
new_request_id_lem fresh [] = ground arith
new_request_id_lem fresh (c ∷ s) = ground (arith, scan_id_lem 0 0 c s)

drop_append : (p q : Text) → drop (length p) (p ++ q) ≡ q
drop_append [] q = refl
drop_append (c ∷ p) q = drop_append p q

take_append : (p q : Text) → take (length p) (p ++ q) ≡ p
take_append [] q = refl
take_append (c ∷ p) q = ap (λ s. c ∷ s) (take_append p q)

pub trim_suffix_append : (p q : Text) → trim_suffix (p ++ q) q ≡ p
unfolding trim_suffix
trim_suffix_append p q =
    let n : length (p ++ q) - length q ≡ length p = omega (arith, length-append p q) in
    ground (arith, n, length-append p q, drop_append p q, take_append p q, text_eq_refl q)

path_ext-suffix : (path : Text) → (p : Text) × (path ≡ p ++ path_ext path)
unfolding path_ext
path_ext-suffix path = elim (Option-cases (cut_last b'.' path)) [
  | inl missing ↦ (path, ground (arith, append-nil path))
  | inr ((before, behind), found) ↦
      (before, ground (arith, cut_last_sound b'.' path before behind found))
]

-- The extension of a path is a suffix: what is left without it, with the extension behind it, is the
-- path.
pub trim_suffix-path_ext : (path : Text) → trim_suffix path (path_ext path) ++ path_ext path ≡ path
trim_suffix-path_ext path =
    let (p, whole) = path_ext-suffix path in
    let e = path_ext path in
    ap (λ s. trim_suffix s e ++ e) whole ∙ ap (λ s. s ++ e) (trim_suffix_append p e) ∙ sym whole
