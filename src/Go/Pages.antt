-- ===== src/Go/Pages.antt =====
-- `Pager.EachPage` of gophercloud, which the program calls and does not contain. Its documented
-- behaviour: the handler is called with each page in order, until it returns false or an error.
use ironic_temper.Base.{◌≡◌, Bool, true, false, List, [], ◌∷◌}
use ironic_temper.Go.{Reply, reply, refused}

unfoldable pub fold_pages :
    {P S : Type 0} → List P → (P → S → Reply Bool × S) → S → Reply (Unit {0}) × S
fold_pages [] handler s = (reply tt, s)
fold_pages (p ∷ ps) handler s =
    let (r, s') = handler p s in
    let rest = fold_pages ps handler s' in
    elim r [ refused e ↦ (refused e, s') | reply true ↦ rest | reply false ↦ (reply tt, s') ]

abbrev pub IsEachPage :
    {P S : Type 0} → (List P → (P → S → Reply Bool × S) → S → Reply (Unit {0}) × S) → Type 0
IsEachPage {P} {S} each_page =
    (pages : List P) (handler : P → S → Reply Bool × S) (s : S)
    → each_page pages handler s ≡ fold_pages pages handler s
