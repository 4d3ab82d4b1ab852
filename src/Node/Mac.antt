-- ===== src/Node/Mac.antt =====
-- The text routines of pkg/node/redfish.go and pkg/node/diagnostics.go on MAC addresses and on the
-- names of ports.
pub mod Separators
use ironic_temper.Base.{
  ℕ, zero, suc, ◌+◌, ◌-◌, ◌%◌, String, ◌<>◌, Char, code, len_utf8, Bool, true, false, not, ◌&&◌,
  Option, none, some, List, [], ◌∷◌, ltb, leb, ◌==◌, ◌=ₛ◌, if◌then◌else◌,
}
use ironic_temper.Go.{
  Error, message, Reply, reply, refused, Result, Exec, ◌>>=◌, ◌>>◌, pure, at_index, branch,
}
use ironic_temper.Text.{remove_all, to_lower, split, byte_len, decimal}

-- `xs[i]` for what follows it.
abbrev at : List String → ℕ → (String → Reply String) → Reply String
at [] i f = refused (message "index out of range")
at (x ∷ xs) zero f = f x
at (x ∷ xs) (suc i) f = at xs i f

-- The loop of `parseMac`: `i` is the byte at which a character begins, `n` the length of the text.
unfoldable pub with_separators : Char → ℕ → ℕ → String → String
with_separators sep n i String.[] = ""
with_separators sep n i (String.◌∷◌ c s) =
    let rest = with_separators sep n (i + len_utf8 c) s in
    if i % 2 == 1 && not (i + 1 == n) then String.◌∷◌ c (String.◌∷◌ sep rest) else String.◌∷◌ c rest

-- The text without the separators of a MAC address.
unfoldable pub bare : String → String
bare s = remove_all b'-' (remove_all b':' s)

-- `parseMac`
unfoldable pub parse_mac : String → Char → Reply String
parse_mac s sep =
    if ltb (byte_len s) 12
    then refused (message ("invalid MAC address: " <> s))
    else reply (with_separators sep (byte_len (bare s)) 0 (bare s))

-- `prepareMac`
unfoldable pub prepare_mac : String → String
prepare_mac m = to_lower (remove_all b':' m)

-- `NIC.Integrated.1-1-1` is the first port on the board, `L1`: the text behind "L" is `nr[1]`.
integrated_name : List String → Reply String
integrated_name nr = at nr 1 (λ port. reply ("L" <> port))

-- `NIC.Slot.3-2-1` is `PCI3-P2`.
slot_name : List String → Reply String
slot_name nr = at nr 0 (λ slot. at nr 1 (λ port. reply ("PCI" <> (slot <> ("-P" <> port)))))

interface_of_parts : String → ℕ → List String → Reply String
unfolding integrated_name slot_name
interface_of_parts id slot (p ∷ kind ∷ ps) =
    if kind =ₛ "Slot"
    then at ps 0 (λ nr. slot_name (split b'-' nr))
    else if kind =ₛ "Integrated"
    then at ps 0 (λ nr. integrated_name (split b'-' nr))
    else reply ""
interface_of_parts id slot _ = reply ("PCI" <> (decimal slot <> ("-P" <> id)))

-- `mapInterfaceToNetbox`. An index out of range, which panics, is refused here.
unfoldable pub map_interface_to_netbox : String → ℕ → Reply String
unfolding interface_of_parts
map_interface_to_netbox id slot = interface_of_parts id slot (split b'.' id)
