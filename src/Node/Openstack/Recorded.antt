-- ===== src/Node/Openstack/Recorded.antt =====
-- What dns was asked, and what it answered, when `createDNSRecords` returns no error.
use mathlib.Core.Path.{subst}
use ironic_temper.Base.{◌≡◌, ◌∙◌, ap, sym, refl, String, ◌<>◌, some, List, [], ◌∷◌, arith}
use ironic_temper.Go.{Reply, reply, refused, ok, ◌>>=◌, ◌>>◌, for_each, of_reply, deref}
use ironic_temper.Go.Sequence.{>>=-ok, call_ok, deref_ok, of_reply_ok, Rounds, for_each-Rounds}
use ironic_temper.Node.{Node, St, Method, call, this}
use ironic_temper.Node.Remote.{IpAddress}
use ironic_temper.Node.Respects.{
  Respects, call-Respects, pure-Respects, branch-Respects, this-Respects, bind-Respects,
  seq-Respects, write-Respects,
}
use ironic_temper.Clients.{Zone, OpenstackApi, get_service_client, new_provider_client}
use ironic_temper.Clients.Dns.{reverse_addr, create_arpa_zone, create_dns_record}
use ironic_temper.Clients.Dns.Recorded.{
  Recorded, ArpaZone, create_dns_record-Recorded, create_arpa_zone-ArpaZone,
}
use ironic_temper.Node.Openstack.{
  ip_of, first_zone, create_a_record, create_ptr_record, create_dns_records,
}

-- What `createDNSRecords` reads of the node.
abbrev asked_of : Node → String × List IpAddress
asked_of n = (n.cfg.domain, n.ipam_addresses)

abbrev SameAsked : Node → Node → Type 0
SameAsked a b = asked_of b ≡ asked_of a

same : (n : Node) → SameAsked n n
same n = refl

joined : (a b c : Node) → SameAsked a b → SameAsked b c → SameAsked a c
joined a b c v w = w ∙ v

module _ {W : Type 0} (api : OpenstackApi W) (parse_cidr : String → Reply String) where
  service_client-SameAsked :
      (service : String) → Respects SameAsked same joined (get_service_client api service)
  unfolding get_service_client new_provider_client
  service_client-SameAsked service =
      search
        (
          call-Respects SameAsked same joined,
          pure-Respects SameAsked same joined,
          branch-Respects SameAsked same joined,
          this-Respects SameAsked same joined,
          bind-Respects SameAsked same joined,
          seq-Respects SameAsked same joined,
          write-Respects SameAsked same joined,
        )
        depth 20

  -- The address can be read as one in the notation of a network.
  abbrev pub IsIp : IpAddress → String → Type 0
  IsIp a ip = (c : String) × (a.address ≡ some c) × (parse_cidr c ≡ reply ip)

  -- One request for the record of the name, in the zone.
  abbrev pub NameRecorded : Zone → IpAddress → W → W → Type 0
  NameRecorded z a w u =
      (ip : String) × IsIp a ip × Recorded api ip z.id (a.dns_name <> ".") "A" w u

  -- The zone of the reverse name, and one request for the record of the address there.
  abbrev pub AddressRecorded : IpAddress → W → W → Type 0
  AddressRecorded a w u =
      (ip : String) × (arpa : String) × (zone : String) × (x : W) × IsIp a ip
      × (reverse_addr api ip ≡ reply arpa)
      × ArpaZone api ip zone w x
      × Recorded api (a.dns_name <> ".") zone arpa "PTR" x u

  -- From the world in which the client is there to the last: the zones of the domain, the requests in
  -- the first of them, and the requests in the reverse zones.
  pub record AllRecorded (domain : String) (addresses : List IpAddress) (begun last : W)
      : Type 0 where
    pub zone : Zone
    pub further : List Zone
    pub listed : W
    pub between : W
    pub answered :
        api.zones_by_name (domain <> ".") begun ≡ (reply (reply (zone ∷ further)), listed)
    pub names : Rounds (NameRecorded zone) addresses listed between
    pub reverse_names : Rounds AddressRecorded addresses between last

  ip_of_ok :
      (a : IpAddress) (ip : String) (s t : St W)
      → ip_of api parse_cidr a s ≡ (ok ip, t)
      → IsIp a ip × (t ≡ s)
  unfolding ip_of
  ip_of_ok a ip s t h =
      let (c, u, e, g) = >>=-ok (deref a.address) (λ c. of_reply (parse_cidr c)) s t ip h in
      let (d, back) = deref_ok a.address c s u e in
      let (p, there) = of_reply_ok (parse_cidr c) ip u t g in ((c, d, p), there ∙ back)

  create_a_record-NameRecorded :
      (z : Zone) (a : IpAddress) (s t : St W)
      → create_a_record api parse_cidr z a s ≡ (ok tt, t)
      → NameRecorded z a s.world t.world
  unfolding create_a_record
  create_a_record-NameRecorded z a s t h =
      let name = a.dns_name <> "." in
      let (ip, u, e, g) =
        >>=-ok (ip_of api parse_cidr a) (λ ip. create_dns_record api ip z.id name "A") s t tt h in
      let (p, back) = ip_of_ok a ip s u e in
      (
        ip,
        p,
        subst (λ v. Recorded api ip z.id name "A" v.world t.world) back
            (create_dns_record-Recorded api ip z.id name "A" u t g),
      )

  -- The statements of a round of the second loop, from the last to the first.
  abbrev records_arpa : IpAddress → String → String → Method W (Unit {0})
  records_arpa a ip arpa =
      create_arpa_zone api ip >>= λ zone. create_dns_record api (a.dns_name <> ".") zone arpa "PTR"

  abbrev reverses : IpAddress → String → Method W (Unit {0})
  reverses a ip = of_reply (reverse_addr api ip) >>= records_arpa a ip

  create_ptr_record-AddressRecorded :
      (a : IpAddress) (s t : St W)
      → create_ptr_record api parse_cidr a s ≡ (ok tt, t)
      → AddressRecorded a s.world t.world
  unfolding create_ptr_record
  create_ptr_record-AddressRecorded a s t h =
      let (ip, s1, e1, h1) = >>=-ok (ip_of api parse_cidr a) (reverses a) s t tt h in
      let (p, back) = ip_of_ok a ip s s1 e1 in
      let (arpa, s2, e2, h2) =
        >>=-ok (of_reply (reverse_addr api ip)) (records_arpa a ip) s1 t tt h1 in
      let (r, there) = of_reply_ok (reverse_addr api ip) arpa s1 s2 e2 in
      let (zone, s3, e3, h3) =
        >>=-ok (create_arpa_zone api ip)
          (λ zone. create_dns_record api (a.dns_name <> ".") zone arpa "PTR") s2 t tt h2 in
      (
        ip,
        arpa,
        zone,
        s3.world,
        p,
        r,
        subst (λ v. ArpaZone api ip zone v.world s3.world) (there ∙ back)
            (create_arpa_zone-ArpaZone api ip zone s2 s3 e3),
        create_dns_record-Recorded api (a.dns_name <> ".") zone arpa "PTR" s3 t h3,
      )

  first_zone_ok :
      (pages : Reply (List Zone)) (z : Zone) (s t : St W)
      → first_zone api parse_cidr pages s ≡ (ok z, t)
      → (further : List Zone) × (pages ≡ reply (z ∷ further)) × (t ≡ s)
  unfolding first_zone
  first_zone_ok (reply (x ∷ zs)) z s t h = (zs, ground (arith, h), ground (arith, h))
  first_zone_ok (reply []) z s t h = absurd (ground arith)
  first_zone_ok (refused e) z s t h = absurd (ground arith)

  -- The statements of `createDNSRecords`.
  abbrev both_loops : List IpAddress → Zone → Method W (Unit {0})
  both_loops ips zone =
      for_each ips (create_a_record api parse_cidr zone)
      >> for_each ips (create_ptr_record api parse_cidr)

  abbrev with_zones : Node → Method W (Unit {0})
  with_zones n = call (api.zones_by_name (n.cfg.domain <> ".")) >>= λ zones.
      first_zone api parse_cidr zones >>= both_loops n.ipam_addresses

  with_zones-AllRecorded :
      (s t : St W)
      → with_zones s.node s ≡ (ok tt, t)
      → AllRecorded s.node.cfg.domain s.node.ipam_addresses s.world t.world
  with_zones-AllRecorded s t h =
      let ips = s.node.ipam_addresses in
      let ask = api.zones_by_name (s.node.cfg.domain <> ".") in
      let (pages, s2, e2, h2) =
        >>=-ok (call ask) (λ zones. first_zone api parse_cidr zones >>= both_loops ips) s t tt h in
      let (z, s3, e3, h3) = >>=-ok (first_zone api parse_cidr pages) (both_loops ips) s2 t tt h2 in
      let (further, p, back) = first_zone_ok pages z s2 s3 e3 in
      let (_, s4, e4, h4) =
        >>=-ok (for_each ips (create_a_record api parse_cidr z))
          (λ _. for_each ips (create_ptr_record api parse_cidr)) s3 t tt h3 in
      let (a, _) = call_ok ask s s2 pages e2 in
      record {
        zone = z;
        further = further;
        listed = s3.world;
        between = s4.world;
        answered = ground (arith, a, p, back);
        names =
            for_each-Rounds (NameRecorded z) (create_a_record api parse_cidr z)
              (create_a_record-NameRecorded z) ips s3 s4 e4;
        reverse_names =
            for_each-Rounds AddressRecorded (create_ptr_record api parse_cidr)
              create_ptr_record-AddressRecorded ips s4 t h4;
      }

  -- Where createDNSRecords returns no error, the client of dns was there or could be made; dns was then
  -- asked for the zones of the node's domain, and in the first of these for a record with the name and
  -- the address of each address of the node, one after the other; then, for one address after the other,
  -- for a record with the reverse name and the name, in the first zone of the name of the reverse zone
  -- or, where there was none, in a new one of that name. Each request for a record was accepted, or
  -- answered with a conflict, that of a name which has one already.
  pub create_dns_records-AllRecorded :
      (s t : St W)
      → create_dns_records api parse_cidr s ≡ (ok tt, t)
      → (ready : St W) × (get_service_client api "dns" s ≡ (ok tt, ready))
        × AllRecorded s.node.cfg.domain s.node.ipam_addresses ready.world t.world
  unfolding create_dns_records
  create_dns_records-AllRecorded s t h =
      let (_, s1, e1, h1) =
        >>=-ok (get_service_client api "dns") (λ _. this >>= with_zones) s t tt h in
      let known : asked_of s1.node ≡ asked_of s.node =
        ap (λ r. asked_of r.1.node) (sym e1) ∙ (service_client-SameAsked "dns").related s in
      (
        s1,
        e1,
        subst (λ q. AllRecorded q.0 q.1 s1.world t.world) known (with_zones-AllRecorded s1 t h1),
      )
