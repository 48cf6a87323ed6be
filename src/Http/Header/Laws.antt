-- ===== src/Http/Header/Laws.antt =====
-- What a read of a header map sees behind a write.
use go_relax.Base.{[], ◌∷◌, ◌++◌, if◌then◌else◌, ◌≡◌, arith}
use go_relax.Text.{Text, text_eq}
use go_relax.Text.Laws.{text_eq_refl}
use go_relax.Http.Header.{Header, canonical, get, values, set, add, del}

pub get-set :
    (h : Header) (k j value : Text)
    → get (set k value h) j ≡ (if text_eq (canonical k) (canonical j) then value else get h j)
get-set h k j value = unfold get set in ground arith

pub get-set_self : (h : Header) (k value : Text) → get (set k value h) k ≡ value
get-set_self h k value = ground (arith, get-set h k k value, text_eq_refl (canonical k))

pub values-add_self :
    (h : Header) (k value : Text) → values (add k value h) k ≡ values h k ++ value ∷ []
values-add_self h k value = unfold values add in ground (arith, text_eq_refl (canonical k))

pub get-del_self : (h : Header) (k : Text) → get (del k h) k ≡ []
get-del_self h k = unfold get del in ground (arith, text_eq_refl (canonical k))
