-- ===== src/Router/Groups.antt =====
-- The numbering of the groups of expressions in the values of a path, in `matchSegment` of router.go.
pub mod Entries
use go_relax.Base.{
  ℕ, zero, suc, ◌+◌, ◌*◌, ◌/◌, ◌≤◌, Bool, true, false, ◌||◌, Option, none, some, List, [], ◌∷◌,
  ◌++◌, ◌≡◌, ◌≢◌, refl, sym, ap, ◌∙◌, append_assoc, append-nil, All, All-append, length,
  length-append, arith, ◌==◌, if◌then◌else◌, get_or,
}
use go_relax.Text.{Text, codes, text_eq, is_empty, itoa}
use go_relax.Text.Laws.{text_eq_iff, text_eq_sym, text_eq_refl}
use go_relax.Text.Decimal.{itoa_injective}
use go_relax.Context.{Values}
use go_relax.Router.Segment.{Regexp}
use go_relax.Router.Find.{values_set, values_add, store_groups, rest_of, store_match}

-- "_1", "_2" and so on
abbrev pub index : ℕ → Text
index k = codes "_" ++ itoa k

-- The entries of the groups from number `k` on: each under its number and under its name.
unfoldable pub entries : ℕ → List Text → List Text → Values
entries k [] names = []
entries k (m ∷ ms) [] = []
entries k (m ∷ ms) (name ∷ names) = (index k, m ∷ []) ∷ (name, m ∷ []) ∷ entries (suc k) ms names

-- A name that is not empty and does not begin like a number.
abbrev pub IsName : Text → Type 0
IsName [] = ⊥
IsName (c ∷ s) = (c == b'_') ≡ false

unfoldable pub mem_text : Text → List Text → Bool
mem_text x [] = false
mem_text x (y ∷ ys) = text_eq y x || mem_text x ys

abbrev pub AreDistinct : List Text → Type 0
AreDistinct [] = Unit
AreDistinct (x ∷ xs) = (mem_text x xs ≡ false) × AreDistinct xs

pub has : Text → Values → Bool
has key [] = false
has key ((k, vs) ∷ more) = text_eq k key || has key more

values_set_absent :
    (key v : Text) (vs : Values)
    → has key vs ≡ false
    → values_set key v vs ≡ vs ++ (key, v ∷ []) ∷ []
unfolding values_set has
values_set_absent key v [] h = refl
values_set_absent key v ((k, ws) ∷ more) h = ground (arith, values_set_absent key v more)

values_add_absent :
    (key v : Text) (vs : Values)
    → has key vs ≡ false
    → values_add key v vs ≡ vs ++ (key, v ∷ []) ∷ []
unfolding values_add has
values_add_absent key v [] h = refl
values_add_absent key v ((k, ws) ∷ more) h = ground (arith, values_add_absent key v more)

has-append : (key : Text) (xs ys : Values) → has key (xs ++ ys) ≡ (has key xs || has key ys)
unfolding has
has-append key [] ys = refl
has-append key ((k, vs) ∷ more) ys = ground (arith, has-append key more ys)

pub index_ne_name : (k : ℕ) (x : Text) → IsName x → text_eq (index k) x ≡ false
unfolding text_eq codes
index_ne_name k [] h = absurd h
index_ne_name k (c ∷ s) h = ground arith

pub index_ne : (j k : ℕ) → (j ≡ k → ⊥) → text_eq (index j) (index k) ≡ false
unfolding text_eq codes
index_ne j k h = ground (arith, text_eq_iff (itoa j) (itoa k), itoa_injective j k)

-- The names, and the numbers from `k` on, are no keys of the values.
pub record IsFresh (k : ℕ) (names : List Text) (vs : Values) : Type 0 where
  pub numbers : (j : ℕ) → k ≤ j → has (index j) vs ≡ false
  pub unused : All (λ x. has x vs ≡ false) names

unused_later :
    (k : ℕ) (name m : Text) (names : List Text) (vs : Values)
    → All IsName names
    → mem_text name names ≡ false
    → All (λ x. has x vs ≡ false) names
    → All (λ x. has x ((vs ++ (index k, m ∷ []) ∷ []) ++ (name, m ∷ []) ∷ []) ≡ false) names
unfolding has mem_text
unused_later k name m [] vs are_names new unused = tt
unused_later k name m (x ∷ xs) vs (is_name, are_names) new (here, unused) = (
  ground (
    arith,
    has-append x (vs ++ (index k, m ∷ []) ∷ []) ((name, m ∷ []) ∷ []),
    has-append x vs ((index k, m ∷ []) ∷ []),
    index_ne_name k x is_name,
    text_eq_sym x name,
  ),
  unused_later k name m xs vs are_names (ground arith) unused,
)

numbers_later :
    (k j : ℕ) (name m : Text) (vs : Values)
    → IsName name
    → suc k ≤ j
    → has (index j) vs ≡ false
    → has (index j) ((vs ++ (index k, m ∷ []) ∷ []) ++ (name, m ∷ []) ∷ []) ≡ false
unfolding has
numbers_later k j name m vs is_name above h =
    rw
      (
        has-append (index j) (vs ++ (index k, m ∷ []) ∷ []) ((name, m ∷ []) ∷ []),
        has-append (index j) vs ((index k, m ∷ []) ∷ []),
        index_ne k j (λ same. omega (arith, same)),
        text_eq_sym name (index j),
        index_ne_name j name is_name,
        h,
      )
      refl

-- Groups with new names are appended.
pub store_groups-entries :
    (k : ℕ) (ms names : List Text) (vs : Values)
    → All IsName names
    → AreDistinct names
    → IsFresh k names vs
    → store_groups k ms names vs ≡ vs ++ entries k ms names
unfolding store_groups entries has
store_groups-entries k [] names vs are_names distinct fresh = sym (append-nil vs)
store_groups-entries k (m ∷ ms) [] vs are_names distinct fresh = sym (append-nil vs)
store_groups-entries k (m ∷ ms) ([] ∷ names) vs (is_name, are_names) distinct fresh = absurd is_name
store_groups-entries k (m ∷ ms) ((c ∷ s) ∷ names) vs (is_name, are_names) (new, distinct) fresh =
    let name = c ∷ s in
    let vs1 = vs ++ (index k, m ∷ []) ∷ [] in
    let vs2 = vs1 ++ (name, m ∷ []) ∷ [] in
    let numbered : values_set (index k) m vs ≡ vs1 =
      values_set_absent (index k) m vs (fresh.numbers k (omega arith)) in
    let free : has name vs1 ≡ false = ground (
      arith,
      has-append name vs ((index k, m ∷ []) ∷ []),
      index_ne_name k name is_name,
      fresh.unused.0,
    ) in
    let named : values_add name m vs1 ≡ vs2 = values_add_absent name m vs1 free in
    let ih = store_groups-entries (suc k) ms names vs2 are_names distinct (record {
      numbers =
          λ j above. numbers_later k j name m vs is_name above (fresh.numbers j (omega arith));
      unused = unused_later k name m names vs are_names new fresh.unused.1;
    }) in
    rw (numbered, named, ih)
      (append_assoc vs1 ((name, m ∷ []) ∷ []) (entries (suc k) ms names)
        ∙ append_assoc vs ((index k, m ∷ []) ∷ []) ((name, m ∷ []) ∷ entries (suc k) ms names))
