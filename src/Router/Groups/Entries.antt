-- ===== src/Router/Groups/Entries.antt =====
-- The keys of the entries that the groups of expressions get.
use go_relax.Base.{
  ℕ, suc, ◌+◌, ◌*◌, ◌≤◌, false, ◌||◌, List, [], ◌∷◌, ◌++◌, ◌≡◌, refl, sym, ap, ◌∙◌, All, length,
  arith,
}
use go_relax.Text.{Text}
use go_relax.Text.Laws.{text_eq_sym}
use go_relax.Router.Groups.{
  index, entries, IsName, mem_text, AreDistinct, has, index_ne_name, index_ne,
}

pub All-split {ℓ} :
    {A : Type ℓ} (P : A → Type 0) (xs ys : List A) → All P (xs ++ ys) → All P xs × All P ys
All-split P [] ys h = (tt, h)
All-split P (x ∷ xs) ys (px, h) = let (hx, hy) = All-split P xs ys h in ((px, hx), hy)

pub mem_text-append :
    (x : Text) (xs ys : List Text) → mem_text x (xs ++ ys) ≡ (mem_text x xs || mem_text x ys)
unfolding mem_text
mem_text-append x [] ys = refl
mem_text-append x (y ∷ xs) ys = ground (arith, mem_text-append x xs ys)

-- No member of the second list is in the first one.
abbrev pub AreApart : List Text → List Text → Type 0
AreApart xs ys = All (λ y. mem_text y xs ≡ false) ys

AreApart-nil : (ys : List Text) → AreApart [] ys
unfolding mem_text
AreApart-nil [] = tt
AreApart-nil (y ∷ ys) = (refl, AreApart-nil ys)

AreApart-cons :
    (x : Text) (xs ys : List Text) → mem_text x ys ≡ false → AreApart xs ys → AreApart (x ∷ xs) ys
unfolding mem_text
AreApart-cons x xs [] new h = tt
AreApart-cons x xs (y ∷ ys) new (hy, h) =
    (ground (arith, text_eq_sym x y), AreApart-cons x xs ys (ground arith) h)

pub AreDistinct-append :
    (xs ys : List Text) → AreDistinct (xs ++ ys) → AreDistinct xs × AreDistinct ys × AreApart xs ys
AreDistinct-append [] ys h = (tt, h, AreApart-nil ys)
AreDistinct-append (x ∷ xs) ys (new, h) =
    let (dx, dy, apart) = AreDistinct-append xs ys h in
    let both : (mem_text x xs || mem_text x ys) ≡ false = sym (mem_text-append x xs ys) ∙ new in
    ((ground arith, dx), dy, AreApart-cons x xs ys (ground arith) apart)

-- The numbers behind the last one, and new names, are no keys of the entries.
pub entries-numbers :
    (j k : ℕ) (ms names : List Text)
    → length names ≡ length ms
    → All IsName names
    → k + length ms ≤ j
    → has (index j) (entries k ms names) ≡ false
unfolding has entries
entries-numbers j k [] names len are_names above = refl
entries-numbers j k (m ∷ ms) [] len are_names above = refl
entries-numbers j k (m ∷ ms) (name ∷ names) len (is_name, are_names) above =
    rw
      (
        index_ne k j (λ same. omega (arith, same)),
        text_eq_sym name (index j),
        index_ne_name j name is_name,
      )
      (entries-numbers j (suc k) ms names (omega arith) are_names (omega arith))

pub entries-unused :
    (x : Text) (k : ℕ) (ms names : List Text)
    → IsName x
    → mem_text x names ≡ false
    → has x (entries k ms names) ≡ false
unfolding has entries mem_text
entries-unused x k [] names is_name new = refl
entries-unused x k (m ∷ ms) [] is_name new = refl
entries-unused x k (m ∷ ms) (name ∷ names) is_name new =
    ground (arith, index_ne_name k x is_name, entries-unused x (suc k) ms names is_name)

pub entries-AreApart :
    (k : ℕ) (ms names xs : List Text)
    → All IsName xs
    → AreApart names xs
    → All (λ x. has x (entries k ms names) ≡ false) xs
entries-AreApart k ms names [] are_names apart = tt
entries-AreApart k ms names (x ∷ xs) (is_name, are_names) (new, apart) =
    (entries-unused x k ms names is_name new, entries-AreApart k ms names xs are_names apart)

pub entries-append :
    (k : ℕ) (ms ns names more : List Text)
    → length names ≡ length ms
    → entries k (ms ++ ns) (names ++ more) ≡ entries k ms names ++ entries (k + length ms) ns more
unfolding entries
entries-append k [] ns [] more len = ap (λ i. entries i ns more) (omega arith)
entries-append k [] ns (name ∷ names) more len = absurd (omega arith)
entries-append k (m ∷ ms) ns [] more len = absurd (omega arith)
entries-append k (m ∷ ms) ns (name ∷ names) more len =
    let later : suc k + length ms ≡ k + length (m ∷ ms) = omega arith in
    ap (λ es. (index k, m ∷ []) ∷ (name, m ∷ []) ∷ es)
      (entries-append (suc k) ms ns names more (omega arith)
        ∙ ap (λ i. entries (suc k) ms names ++ entries i ns more) later)

pub entries-length :
    (k : ℕ) (ms names : List Text)
    → length names ≡ length ms
    → length (entries k ms names) ≡ 2 * length ms
unfolding entries
entries-length k [] names len = omega arith
entries-length k (m ∷ ms) [] len = absurd (omega arith)
entries-length k (m ∷ ms) (name ∷ names) len =
    omega (arith, entries-length (suc k) ms names (omega arith))
