-- ===== src/Tests/ServiceLaws.antt =====
-- The theorems on encoders, languages and waiting clients at concrete values.
use go_relax.Base.{ℕ, if◌then◌else◌, ltb, Option, none, some, [], ◌∷◌, refl, length, arith}
use go_relax.Text.{Text, codes, text_eq}
use go_relax.Context.{returned, Payload, value}
use go_relax.Encoder.{Codec, Settings, new_json}
use go_relax.Util.{Quality, Prefs, pref}
use go_relax.Content.{best_language}
use go_relax.Content.Language.{IsOrder, IsBest, AreListed, best_language-IsBest}
use go_relax.Service.Dispatch.{Arrival}
use go_relax.Service.{Resource}
use go_relax.Tests.CoreLaws.{new_one, naming}

abbrev text_of : Payload → Option Text
text_of (value s) = some s
text_of _ = none

abbrev pub raw : Codec
raw = record { marshal = λ indented v. text_of v; decode = λ s. (length s, value s, none) }

-- A codec that reads only an empty object.
abbrev empty_object : Text → ℕ × Payload × Option Text
empty_object s =
    if text_eq s (codes "{}") then (length s, value s, none) else (length s, value [], some [])

abbrev objects : Codec
objects = record { marshal = λ indented v. text_of v; decode = empty_object }

-- Bodies may have one byte.
abbrev short_bodies : Settings
short_bodies = record new_json { max_body_size = 1 }

abbrev pub naturals : Quality
naturals = record {
  Q = ℕ;
  zero_q = 0;
  one_q = 10;
  competitive = 5;
  gt = λ a b. ltb b a;
  parse_float = λ s. none;
}

naturals-IsOrder : IsOrder naturals
naturals-IsOrder = record {
  irreflexive = λ a. ground arith;
  asymmetric = λ a b h. ground arith;
  weak = λ a b c h k. ground arith;
}

abbrev languages : Prefs naturals
languages = (codes "de", 3) ∷ (codes "fr", 8) ∷ (codes "en-US", 5) ∷ []

languages-AreListed : AreListed naturals naturals-IsOrder languages languages
unfolding pref text_eq codes
languages-AreListed = (refl, (refl, (refl, tt)))

best_language-IsBest_example :
    IsBest naturals naturals-IsOrder languages languages
      (best_language naturals languages languages (codes "en-US"))
best_language-IsBest_example =
    best_language-IsBest naturals naturals-IsOrder languages languages (codes "en-US")
      languages-AreListed

abbrev pub posts_resource : Resource
posts_resource = record {
  name = codes "posts";
  path = codes "/posts";
  collection = record {
    type_name = codes "Posts";
    index = λ view. returned;
    options = none;
    crud = none;
  };
  links = [];
  filters = naming "resource" ∷ [];
}

abbrev arrival : Arrival
arrival = record { now = 0; uuid = codes "new"; pooled = new_one; parent = [] }
