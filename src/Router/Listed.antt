-- ===== src/Router/Listed.antt =====
-- The list of methods that `AddRoute` of router.go keeps as a joined text.
use go_relax.Base.{
  append_assoc, Bool, true, false, ◌||◌, List, [], ◌∷◌, ◌++◌, ◌≡◌, refl, ap, ◌∙◌, arith, All, any,
}
use go_relax.Text.{Text, codes, text_eq, is_empty, has_prefix, has_byte, contains, join}
use go_relax.Text.Laws.{text_eq_iff}
use go_relax.Router.Trie.{add_method}

has_prefix-comma :
    (p t m : Text) → has_byte b',' m ≡ false → has_prefix (p ++ b',' ∷ t) m ≡ has_prefix p m
unfolding has_prefix
has_prefix-comma [] t [] plain = refl
has_prefix-comma [] t (d ∷ m) plain = ground arith
has_prefix-comma (c ∷ p) t [] plain = refl
has_prefix-comma (c ∷ p) t (d ∷ m) plain = ground (arith, has_prefix-comma p t m)

-- A text without a comma stands on one side of a comma.
contains-comma :
    (p t m : Text)
    → has_byte b',' m ≡ false
    → is_empty m ≡ false
    → contains (p ++ b',' ∷ t) m ≡ (contains p m || contains t m)
unfolding contains has_prefix
contains-comma [] t [] plain some_text = absurd cc
contains-comma [] t (d ∷ m) plain some_text = ground arith
contains-comma (c ∷ p) t m plain some_text =
    ground (arith, contains-comma p t m, has_prefix-comma (c ∷ p) t m plain)

join-comma :
    (x y : Text) (ms : List Text)
    → join (x ∷ y ∷ ms) (codes ",") ≡ x ++ b',' ∷ join (y ∷ ms) (codes ",")
unfolding join codes
join-comma x y ms = append_assoc x (codes ",") (join (y ∷ ms) (codes ","))

contains-join :
    (m : Text) (ms : List Text)
    → has_byte b',' m ≡ false
    → is_empty m ≡ false
    → contains (join ms (codes ",")) m ≡ any (λ x. contains x m) ms
unfolding contains join codes has_prefix
contains-join [] [] plain some_text = absurd cc
contains-join (d ∷ m) [] plain some_text = refl
contains-join m (x ∷ []) plain some_text = ground arith
contains-join m (x ∷ y ∷ ms) plain some_text = ground (
  arith,
  join-comma x y ms,
  contains-comma x (join (y ∷ ms) (codes ",")) m plain some_text,
  contains-join m (y ∷ ms) plain some_text,
)

-- A method is in a list of methods.
abbrev pub has_method : Text → List Text → Bool
has_method m ms = any (λ x. text_eq x m) ms

-- No method in the list has this one as a part, unless it is the same.
abbrev pub IsSeparate : Text → List Text → Type 0
IsSeparate m ms = All (λ x. contains x m ≡ text_eq x m) ms

any_separate :
    (m : Text) (ms : List Text) → IsSeparate m ms → any (λ x. contains x m) ms ≡ has_method m ms
any_separate m [] s = refl
any_separate m (x ∷ ms) (one, s) = ground (arith, any_separate m ms s)

has_method-append :
    (m x : Text) (ms : List Text) → has_method m (ms ++ x ∷ []) ≡ (has_method m ms || text_eq x m)
has_method-append m x [] = ground arith
has_method-append m x (y ∷ ms) = ground (arith, has_method-append m x ms)

has_method-same :
    (m x : Text) (ms : List Text) → text_eq x m ≡ true → has_method x ms ≡ has_method m ms
has_method-same m x ms h = ap (λ t. has_method t ms) ((text_eq_iff x m).0 h)

-- A method that is no part of another one in the list is then in it, and the others stay.
pub has_method-add_method :
    (x m : Text) (ms : List Text)
    → has_byte b',' x ≡ false
    → is_empty x ≡ false
    → IsSeparate x ms
    → has_method m (add_method x ms) ≡ (has_method m ms || text_eq x m)
unfolding add_method
has_method-add_method x m ms plain some_text s =
    let listed = contains-join x ms plain some_text ∙ any_separate x ms s in
    ground (arith, listed, has_method-append m x ms, has_method-same m x ms)
