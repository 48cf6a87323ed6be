-- ===== src/Util/Preferences.antt =====
-- `ParsePreferences` of util.go, against a description without a map.
use go_relax.Base.{
  Bool, true, ◌&&◌, Option, none, some, is_some, List, [], ◌∷◌, ◌≡◌, refl, map, if◌then◌else◌,
  arith, inl, inr, Option-cases,
}
use go_relax.Text.{Text, codes, text_eq, split, trim_space}
use go_relax.Text.Laws.{text_eq_iff, text_eq_trans_false}
use go_relax.Util.{
  Quality, Prefs, split_once, set_pref, pref, parse_preference, parse_all, parse_preferences,
}

module _ (q : Quality) where
  open q use {Q, one_q, parse_float}

  -- The quality that an entry gives behind ";q=", if it can be read; one, if it gives none.
  unfoldable pub quality : Option Text → Option Q
  quality none = some one_q
  quality (some digits) = parse_float digits

  -- An entry between commas: its name and its quality.
  unfoldable pub entry : Text → Text × Option Q
  unfolding split_once trim_space codes quality
  entry raw = let (name, rest) = split_once (codes ";q=") (trim_space raw) in (name, quality rest)

  -- The qualities of all entries can be read.
  unfoldable pub are_read : List (Text × Option Q) → Bool
  are_read [] = true
  are_read ((name, v) ∷ more) = is_some v && are_read more

  -- The quality of the last entry with a name.
  unfoldable pub last_named : Text → List (Text × Option Q) → Option Q
  unfolding text_eq
  last_named key [] = none
  last_named key ((name, v) ∷ more) = elim (last_named key more) [
    | some w ↦ some w
    | none ↦ if text_eq name key then v else none
  ]

  pref-set_pref :
      (key name : Text) (v : Q) (prefs : Prefs q)
      → pref q key (set_pref q name v prefs)
        ≡ (if text_eq name key then some v else pref q key prefs)
  unfolding pref set_pref
  pref-set_pref key name v [] = refl
  pref-set_pref key name v ((k, w) ∷ more) = ground (
    arith,
    pref-set_pref key name v more,
    text_eq_trans_false k name key,
    text_eq_iff k name,
    text_eq_iff k key,
    text_eq_iff name key,
  )

  -- What the map has for a key, if there is a map.
  unfoldable pub looked_up : Text → Option (Prefs q) → Option (Option Q)
  unfolding pref
  looked_up key none = none
  looked_up key (some prefs) = some (pref q key prefs)

  -- One round of the loop.
  parse_preference-entry :
      (key raw : Text) (prefs : Prefs q)
      → looked_up key (parse_preference q raw prefs) ≡ elim (entry raw).1 [
        | none ↦ none
        | some v ↦ some (if text_eq (entry raw).0 key then some v else pref q key prefs)
      ]
  unfolding parse_preference looked_up entry quality
  parse_preference-entry key raw prefs =
      let (name, rest) = split_once (codes ";q=") (trim_space raw) in
      elim (Option-cases rest) [
        | inl missing ↦ ground (arith, pref-set_pref key name one_q prefs)
        | inr (digits, there) ↦ elim (Option-cases (parse_float digits)) [
          | inl bad ↦ ground (arith)
          | inr (v, read) ↦ ground (
            arith,
            pref-set_pref key name one_q prefs,
            pref-set_pref key name v (set_pref q name one_q prefs),
          )
        ]
      ]

  -- One more entry, in front of a map that is there.
  parse_all-looked_up :
      (key : Text) (raws : List Text) (prefs : Prefs q)
      → looked_up key (parse_all q raws prefs) ≡ (
          if are_read (map entry raws)
          then some
              (elim (last_named key (map entry raws)) [ some v ↦ some v | none ↦ pref q key prefs ])
          else none)
  unfolding parse_all looked_up are_read last_named
  parse_all-looked_up key [] prefs = refl
  parse_all-looked_up key (raw ∷ more) prefs =
      let first = parse_preference-entry key raw prefs in
      elim (Option-cases (parse_preference q raw prefs)) [
        | inl bad ↦ elim (Option-cases (entry raw).1) [
          | inl missing ↦ ground arith
          | inr (v, read) ↦ ground arith
        ]
        | inr (prefs', good) ↦ elim (Option-cases (entry raw).1) [
          | inl missing ↦ ground arith
          | inr (v, read) ↦ ground (arith, parse_all-looked_up key more prefs')
        ]
      ]

  -- The preferences of a header are those of its entries between commas: there are none if a quality
  -- cannot be read, and else each name has the quality of its last entry.
  pub parse_preferences-entry :
      (key values : Text)
      → looked_up key (parse_preferences q values) ≡ (
          if are_read (map entry (split values b','))
          then some (last_named key (map entry (split values b',')))
          else none)
  unfolding parse_preferences pref
  parse_preferences-entry key values =
      let all = parse_all-looked_up key (split values b',') [] in
      elim (Option-cases (last_named key (map entry (split values b',')))) [
        | inl missing ↦ ground arith
        | inr (v, named) ↦ ground arith
      ]
