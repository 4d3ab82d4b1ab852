-- ===== src/Clients/Dns.antt =====
-- The dns calls of pkg/clients/openstack.go, and the reverse names of pkg/clients/util.go and
-- pkg/node/util.go.
pub mod Reverse
pub mod Recorded
pub mod Keeping
use ironic_temper.Base.{
  ℕ, zero, suc, ◌/◌, ◌%◌, String, ◌<>◌, Char, Bool, true, false, ◌&&◌, Option, none, some, List, [],
  ◌∷◌, ltb, ◌==◌, if◌then◌else◌,
}
use ironic_temper.Go.{
  Error, message, conflict, Reply, reply, refused, Result, Exec, Call, ◌>>=◌, ◌>>◌, pure, fail,
  inspect, of_reply,
}
use ironic_temper.Node.{St, Method, call}
use ironic_temper.Text.{decimal}
use ironic_temper.Clients.{Zone, RecordSet, OpenstackApi, cached_client}

all_zero : List ℕ → Bool
all_zero [] = true
all_zero (n ∷ ns) = n == 0 && all_zero ns

-- The four bytes of `ip.To4()`, of an address in its sixteen bytes.
unfoldable pub to4 : List ℕ → Option (ℕ × ℕ × ℕ × ℕ)
unfolding all_zero
to4 (a ∷ b ∷ c ∷ d ∷ e ∷ f ∷ g ∷ h ∷ i ∷ j ∷ k ∷ l ∷ w ∷ x ∷ y ∷ z ∷ []) =
    if all_zero (a ∷ b ∷ c ∷ d ∷ e ∷ f ∷ g ∷ h ∷ i ∷ j ∷ []) && (k == 255 && l == 255)
    then some (w, x, y, z)
    else none
to4 _ = none

abbrev pub zone_name : ℕ × ℕ × ℕ × ℕ → String
zone_name (w, x, y, z) =
    decimal y <> ("." <> (decimal x <> ("." <> (decimal w <> ".in-addr.arpa."))))

abbrev pub addr_name : ℕ × ℕ × ℕ × ℕ → String
addr_name (w, x, y, z) =
    decimal z
    <> ("." <> (decimal y <> ("." <> (decimal x <> ("." <> (decimal w <> ".in-addr.arpa."))))))

abbrev of_ip4 : Option (ℕ × ℕ × ℕ × ℕ) → (ℕ × ℕ × ℕ × ℕ → String) → Reply String
of_ip4 none name = refused (message "no ip4 address")
of_ip4 (some b) name = reply (name b)

of_ip : String → Option (List ℕ) → (ℕ × ℕ × ℕ × ℕ → String) → Reply String
unfolding to4
of_ip addr none name = refused (message ("unrecognized address: " <> addr))
of_ip addr (some bytes) name = of_ip4 (to4 bytes) name

module _ {W : Type 0} (api : OpenstackApi W) where
  -- `reverseaddr`
  unfoldable pub reverse_addr : String → Reply String
  unfolding of_ip
  reverse_addr addr = of_ip addr (api.parse_ip addr) addr_name

  -- `reverseZone`
  unfoldable pub reverse_zone : String → Reply String
  unfolding of_ip
  reverse_zone addr = of_ip addr (api.parse_ip addr) zone_name

  zone_or_new : String → List Zone → Method W String
  zone_or_new name [] = do z ← call (api.zone_create name); pure z.id
  zone_or_new name (z ∷ zs) = pure z.id

  -- `CreateArpaZone`
  unfoldable pub create_arpa_zone : String → Method W String
  unfolding zone_or_new
  create_arpa_zone ip = do
    name ← of_reply (reverse_zone ip)
    cached_client "dns"
    pages ← call (api.zones_by_name name)
    zones ← of_reply pages
    zone_or_new name zones

  -- A record that is there already is no error.
  exists_or : Reply (Unit {0}) → Method W (Unit {0})
  exists_or (reply u) = pure tt
  exists_or (refused (conflict m)) = pure tt
  exists_or (refused e) = fail e

  -- `CreateDNSRecord`
  unfoldable pub create_dns_record : String → String → String → String → Method W (Unit {0})
  unfolding exists_or
  create_dns_record ip zone name type = do
    cached_client "dns"
    r ← inspect (
        call (
          api.record_create zone
            (record { name = name; ttl = 3600; type = type; records = ip ∷ [] })))
    exists_or r
