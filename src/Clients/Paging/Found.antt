-- ===== src/Clients/Paging/Found.antt =====
-- What the lookups in a listing of pages find.
use ironic_temper.Base.{◌≡◌, ◌∙◌, String, Option, none, some, List, [], ◌∷◌, arith}
use ironic_temper.Go.{Reply, reply}
use ironic_temper.Go.Pages.{fold_pages, IsEachPage}
use ironic_temper.Clients.{Named, EachPage}
use ironic_temper.Clients.Paging.{value_of, flavor_handler, zone_handler}

abbrev or_id : Option String → String → String
or_id none id = id
or_id (some v) id = v

-- The first match over all pages.
unfoldable pub first_match : String → List (List Named) → Option String
first_match name [] = none
first_match name (p ∷ ps) = elim (value_of name p) [ some v ↦ some v | none ↦ first_match name ps ]

-- By the documented behaviour of `EachPage`, the lookup of a flavor, and that of a zone, looks no
-- further than the first page, if that has no match: it gives no id, and no error, whatever the
-- later pages hold.
pub flavor_on_later_page :
    (each_page : EachPage (Reply (List Named)) String)
    → IsEachPage each_page
    → (name : String) (first : List Named) (rest : List (Reply (List Named)))
    → value_of name first ≡ none
    → (each_page (reply first ∷ rest) (flavor_handler name) "" ≡ (reply tt, ""))
      × (each_page (reply first ∷ rest) (zone_handler name) "" ≡ (reply tt, ""))
unfolding flavor_handler zone_handler fold_pages
flavor_on_later_page each_page law name first rest h =
    (law _ _ _ ∙ ground arith, law _ _ _ ∙ ground arith)
