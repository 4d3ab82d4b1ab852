-- ===== src/Clients/Dns/Recorded.antt =====
-- What dns was asked, and what it answered, when `CreateDNSRecord` and `CreateArpaZone` return no error.
use ironic_temper.Base.{◌≡◌, refl, String, true, false, Bool, List, [], ◌∷◌, arith}
use ironic_temper.Go.{
  already_exists, not_found, message, conflict, Reply, reply, refused, ok, Call, ◌>>=◌, inspect,
  of_reply, pure, branch, panic,
}
use ironic_temper.Go.Sequence.{>>=-ok, call_ok, of_reply_ok}
use ironic_temper.Node.{St, Method, call}
use ironic_temper.Clients.{Zone, OpenstackApi, RecordSet, cached_client, is_cached}
use ironic_temper.Clients.Dns.{
  exists_or, zone_or_new, create_dns_record, create_arpa_zone, reverse_zone,
}

-- The answer to a request for a record: it was made, or there is one of that name already.
abbrev pub IsAccepted : Reply (Unit {0}) → Type 0
IsAccepted (reply u) = Unit
IsAccepted (refused (conflict m)) = Unit
IsAccepted (refused e) = ⊥

cached_client_ok :
    {W : Type 0} (service : String) (s t : St W) → cached_client service s ≡ (ok tt, t) → t ≡ s
cached_client_ok service s t h = by_test (is_cached service s.node.service_clients) h
  where
    by_test :
        (b : Bool) → branch b (pure tt) (panic "nil pointer dereference") s ≡ (ok tt, t) → t ≡ s
    by_test true e = ground arith
    by_test false e = absurd (ground arith)

inspect-call :
    {W A : Type 0} (c : Call W A) (r : Reply A) (s t : St W)
    → inspect (call c) s ≡ (ok r, t)
    → c s.world ≡ (r, t.world)
inspect-call {A = A} c r s t h = answered (c s.world).0 refl
  where
    answered : (x : Reply A) → (c s.world).0 ≡ x → c s.world ≡ (r, t.world)
    answered (reply a) e = ground (arith, e, h)
    answered (refused x) e = ground (arith, e, h)

module _ {W : Type 0} (api : OpenstackApi W) where
  abbrev pub record_of : String → String → String → RecordSet
  record_of ip name type = record { name = name; ttl = 3600; type = type; records = ip ∷ [] }

  -- Between two worlds, one request for a record, which was accepted.
  abbrev pub Recorded : String → String → String → String → W → W → Type 0
  Recorded ip zone name type w u =
      (r : Reply (Unit {0})) × (api.record_create zone (record_of ip name type) w ≡ (r, u))
      × IsAccepted r

  -- The zone of a name: the first that dns has, or a new one if it has none.
  abbrev pub FirstOrNew : String → List Zone → String → W → W → Type 0
  FirstOrNew name [] zone w u = (z : Zone) × (api.zone_create name w ≡ (reply z, u)) × (zone ≡ z.id)
  FirstOrNew name (z ∷ zs) zone w u = (zone ≡ z.id) × (u ≡ w)

  -- Between two worlds, dns was asked for the zones of the reverse zone's name.
  abbrev pub ArpaZone : String → String → W → W → Type 0
  ArpaZone ip zone w u =
      (name : String) × (zones : List Zone) × (x : W) × (reverse_zone api ip ≡ reply name)
      × (api.zones_by_name name w ≡ (reply (reply zones), x))
      × FirstOrNew name zones zone x u

  exists_or-IsAccepted :
      (r : Reply (Unit {0})) (s t : St W) → exists_or api r s ≡ (ok tt, t) → IsAccepted r × (t ≡ s)
  unfolding exists_or
  exists_or-IsAccepted (reply u) s t h = (tt, ground arith)
  exists_or-IsAccepted (refused (conflict m)) s t h = (tt, ground arith)
  exists_or-IsAccepted (refused already_exists) s t h = absurd (ground arith)
  exists_or-IsAccepted (refused (not_found m)) s t h = absurd (ground arith)
  exists_or-IsAccepted (refused (message m)) s t h = absurd (ground arith)

  pub create_dns_record-Recorded :
      (ip zone name type : String) (s t : St W)
      → create_dns_record api ip zone name type s ≡ (ok tt, t)
      → Recorded ip zone name type s.world t.world
  unfolding create_dns_record
  create_dns_record-Recorded ip zone name type s t h =
      let c = api.record_create zone (record_of ip name type) in
      let (_, s1, e1, h1) =
        >>=-ok (cached_client "dns") (λ _. inspect (call c) >>= λ r. exists_or api r) s t tt h in
      let (r, s2, e, h2) = >>=-ok (inspect (call c)) (λ r. exists_or api r) s1 t tt h1 in
      let (a, same) = exists_or-IsAccepted r s2 t h2 in
      let asked = inspect-call c r s1 s2 e in
      (r, ground (arith, asked, same, cached_client_ok "dns" s s1 e1), a)

  zone_or_new_ok :
      (name zone : String) (zones : List Zone) (s t : St W)
      → zone_or_new api name zones s ≡ (ok zone, t)
      → FirstOrNew name zones zone s.world t.world
  unfolding zone_or_new
  zone_or_new_ok name zone [] s t h =
      let (z, u, e, g) = >>=-ok (call (api.zone_create name)) (λ z. pure z.id) s t zone h in
      let (made, _) = call_ok (api.zone_create name) s u z e in
      (z, ground (arith, made, g), ground (arith, g))
  zone_or_new_ok name zone (z ∷ zs) s t h = (ground arith, ground arith)

  pub create_arpa_zone-ArpaZone :
      (ip zone : String) (s t : St W)
      → create_arpa_zone api ip s ≡ (ok zone, t)
      → ArpaZone ip zone s.world t.world
  unfolding create_arpa_zone
  create_arpa_zone-ArpaZone ip zone s t h =
      let from : String → Reply (List Zone) → Method W String =
        λ name pages. of_reply pages >>= zone_or_new api name in
      let asked : String → Method W String = λ name. call (api.zones_by_name name) >>= from name in
      let (name, s1, e1, h1) =
        >>=-ok (of_reply (reverse_zone api ip)) (λ name. cached_client "dns" >>= λ _. asked name) s
          t zone h in
      let (n, same) = of_reply_ok (reverse_zone api ip) name s s1 e1 in
      let (_, s2, e2, h2) = >>=-ok (cached_client "dns") (λ _. asked name) s1 t zone h1 in
      let (pages, s3, e3, h3) = >>=-ok (call (api.zones_by_name name)) (from name) s2 t zone h2 in
      let (zones, s4, e4, h4) = >>=-ok (of_reply pages) (zone_or_new api name) s3 t zone h3 in
      let (p, there) = of_reply_ok pages zones s3 s4 e4 in
      let (answer, _) = call_ok (api.zones_by_name name) s2 s3 pages e3 in
      let back = cached_client_ok "dns" s1 s2 e2 in
      (
        name,
        zones,
        s4.world,
        n,
        ground (arith, answer, p, there, back, same),
        zone_or_new_ok name zone zones s4 t h4,
      )
