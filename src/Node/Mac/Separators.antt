-- ===== src/Node/Mac/Separators.antt =====
-- MAC addresses in different notations.
use ironic_temper.Base.{ℕ, ◌+◌, ◌≡◌, refl, ◌⊎◌, inl, inr, String, Char, code, len_utf8, arith}
use ironic_temper.Go.{reply}
use ironic_temper.Text.{remove_all, byte_len}
use ironic_temper.Text.Laws.{remove_all_comm, remove_all_idem}
use ironic_temper.Node.Mac.{with_separators, bare, parse_mac}

-- Removing the separator again gives what the loop was given.
remove_all-with_separators :
    (sep : Char) (n i : ℕ) (s : String)
    → remove_all (code sep) (with_separators sep n i s) ≡ remove_all (code sep) s
unfolding remove_all with_separators
remove_all-with_separators sep n i String.[] = refl
remove_all-with_separators sep n i (String.◌∷◌ c s) =
    ground (arith, remove_all-with_separators sep n (i + len_utf8 c) s)

-- A character that writes a separator of a MAC address.
abbrev pub IsSeparator : Char → Type 0
IsSeparator c = (code c ≡ b':') ⊎ (code c ≡ b'-')

-- Separating the digits of an address keeps the digits.
bare-with_separators :
    (sep : Char) (n i : ℕ) (s : String)
    → IsSeparator sep
    → bare (with_separators sep n i (bare s)) ≡ bare s
unfolding bare
bare-with_separators sep n i s (inl e) =
    let b = remove_all b'-' (remove_all b':' s) in
    let lem = remove_all-with_separators sep n i b in
    ground (
      arith,
      lem,
      remove_all_comm b':' b'-' (remove_all b':' s),
      remove_all_idem b':' s,
      remove_all_idem b'-' (remove_all b':' s),
    )
bare-with_separators sep n i s (inr e) =
    let b = remove_all b'-' (remove_all b':' s) in
    let t = with_separators sep n i b in
    let lem = remove_all-with_separators sep n i b in
    ground (
      arith,
      lem,
      remove_all_comm b'-' b':' t,
      remove_all_comm b':' b'-' (remove_all b':' s),
      remove_all_idem b':' s,
      remove_all_idem b'-' (remove_all b':' s),
    )

-- Writing a MAC address with colons or with dashes keeps its digits, whatever notation it came in.
pub parse_mac-bare :
    (s t : String) (sep : Char) → IsSeparator sep → parse_mac s sep ≡ reply t → bare t ≡ bare s
unfolding parse_mac
parse_mac-bare s t sep h e = ground (arith, bare-with_separators sep (byte_len (bare s)) 0 s h)
