-- ===== src/Oci/Path/Examples.antt =====
-- Paths of containers at concrete values.
use lightpod.Base.{true, false, ◌≡◌, refl, ◌↔◌, List, [], ◌∷◌, ◌++◌, arith}
use lightpod.Base.Text.{Bytes, text}
use lightpod.Oci.Path.{clean, join, dir, is_within}
use lightpod.Oci.Path.Render.{IsName, is_special, render}
use lightpod.Oci.Path.Within.{is_within_iff}

clean_dots : clean (text "/a/./b//../c/") ≡ text "/a/c"
unfolding clean
clean_dots = refl

clean_above : clean (text "../../etc") ≡ text "../../etc"
unfolding clean
clean_above = refl

join_up : join (text "/srv") (text "../etc") ≡ text "/etc"
unfolding join
join_up = refl

dir_file : dir (text "/srv/app/config.json") ≡ text "/srv/app"
unfolding dir
dir_file = refl

sibling_outside : is_within (text "/srv/app") (text "/srv/app2") ≡ false
unfolding is_within
sibling_outside = refl

abbrev srv : Bytes
srv = text "srv"

abbrev app : Bytes
app = text "app"

srv-IsName : IsName srv
unfolding is_special
srv-IsName = (refl, ground arith)

app-IsName : IsName app
unfolding is_special
app-IsName = (refl, ground arith)

is_within_iff_example :
    ((is_within (render (srv ∷ [])) (render (srv ∷ app ∷ [])) ≡ true)
      ↔ ((cs : List Bytes) × (srv ∷ app ∷ [] ≡ (srv ∷ []) ++ cs)))
    × (is_within (render []) (render (srv ∷ app ∷ [])) ≡ false)
is_within_iff_example =
    is_within_iff srv [] srv (app ∷ []) (srv-IsName, tt) (srv-IsName, (app-IsName, tt))
