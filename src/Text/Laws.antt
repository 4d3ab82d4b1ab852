-- ===== src/Text/Laws.antt =====
-- Laws of the text functions, for the routines on MAC addresses and node names.
use ironic_temper.Base.{ℕ, ◌≡◌, refl, String, [], ◌∷◌, arith}
use ironic_temper.Text.{split, remove_all, to_lower}

-- Removing two separators can be done in either order.
pub remove_all_comm :
    (a b : ℕ) (s : String) → remove_all a (remove_all b s) ≡ remove_all b (remove_all a s)
unfolding remove_all
remove_all_comm a b String.[] = refl
remove_all_comm a b (String.◌∷◌ c s) = ground (arith, remove_all_comm a b s)

-- Removing a separator twice removes nothing more.
pub remove_all_idem : (a : ℕ) (s : String) → remove_all a (remove_all a s) ≡ remove_all a s
unfolding remove_all
remove_all_idem a String.[] = refl
remove_all_idem a (String.◌∷◌ c s) = ground (arith, remove_all_idem a s)

split_tests : split b'-' "node001-bb123" ≡ "node001" ∷ "bb123" ∷ []
unfolding split
split_tests = refl

lower_test : to_lower "AA:bc-Z9" ≡ "aa:bc-z9"
unfolding to_lower
lower_test = refl
