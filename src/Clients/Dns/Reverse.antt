-- ===== src/Clients/Dns/Reverse.antt =====
-- The reverse name of an address lies in the reverse zone of that address.
use ironic_temper.Base.{ℕ, ◌≡◌, refl, String, ◌<>◌, Option, none, some, List}
use ironic_temper.Go.{Reply, reply, refused}
use ironic_temper.Text.{decimal}
use ironic_temper.Clients.{OpenstackApi}
use ironic_temper.Clients.Dns.{to4, of_ip, of_ip4, addr_name, zone_name, reverse_addr, reverse_zone}

-- The two routines name the same zone: where one of them succeeds so does the other, and the name of
-- the address is its last byte before the name of the zone. They fail with the same error.
abbrev pub AgreesWith : Reply String → Reply String → Type 0
AgreesWith (reply a) (reply z) = (last : ℕ) × (a ≡ decimal last <> ("." <> z))
AgreesWith (refused e) (refused e') = e ≡ e'
AgreesWith _ _ = ⊥

of_ip_agree :
    (addr : String) (ip : Option (List ℕ))
    → AgreesWith (of_ip addr ip addr_name) (of_ip addr ip zone_name)
unfolding of_ip
of_ip_agree addr none = refl
of_ip_agree addr (some bytes) = four (to4 bytes)
  where
    four : (b : Option (ℕ × ℕ × ℕ × ℕ)) → AgreesWith (of_ip4 b addr_name) (of_ip4 b zone_name)
    four none = refl
    four (some (w, x, y, z)) = (z, refl)

-- Reversing an address and naming its zone succeed for the same addresses and fail with the same
-- error; the name of the address is its last byte, a dot and the name of the zone.
reverse_addr-reverse_zone :
    {W : Type 0} (api : OpenstackApi W) (addr : String)
    → AgreesWith (reverse_addr api addr) (reverse_zone api addr)
unfolding reverse_addr reverse_zone
reverse_addr-reverse_zone api addr = of_ip_agree addr (api.parse_ip addr)
