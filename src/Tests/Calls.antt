-- ===== src/Tests/Calls.antt =====
-- Runs of the routines that call ironic, openstack and the switches, and of the text routines.
use ironic_temper.Base.{
  ℕ, ◌+◌, ◌%◌, ◌≡◌, ◌≤◌, ◌<◌, ◌↔◌, ◌⊎◌, inl, refl, some, String, Char, true, List, [], ◌∷◌, All,
  leb, arith,
}
use ironic_temper.Go.{reply, ok}
use ironic_temper.Go.Pages.{fold_pages}
use ironic_temper.Go.Polling.{attempts}
use ironic_temper.Node.Netbox.Status.{or_empty}
use ironic_temper.Node.Cabling.{Entry, run_aci_check}
use ironic_temper.Diagnostics.Aci.{AciApi, request}
use ironic_temper.Node.Cabling.Rounds.{all_cabled}
use ironic_temper.Node.Cabling.Verdict.{AnswersAs, run_aci_check_ok}
use ironic_temper.Node.Cabling.Held.{held, client_after, run_aci_check-held}
use ironic_temper.Node.Mac.{with_separators, bare, parse_mac}
use ironic_temper.Node.Mac.Separators.{parse_mac-bare}
use ironic_temper.Node.Openstack.{Flavor, Floats, Needs, consider_all, no_match}
use ironic_temper.Node.Openstack.Sizes.{Chosen, consider_all-Chosen}
use ironic_temper.Clients.{OpenstackApi, Named, get_service_client}
use ironic_temper.Node.Remote.{IpAddress}
use ironic_temper.Node.{St}
use ironic_temper.Node.Openstack.Recorded.{AllRecorded, create_dns_records-AllRecorded}
use ironic_temper.Node.Openstack.{create_a_record, create_ptr_record, create_dns_records}
use ironic_temper.Clients.Dns.{to4, create_arpa_zone, create_dns_record, reverse_addr, reverse_zone}
use ironic_temper.Clients.Paging.{value_of, flavor_handler, zone_handler}
use ironic_temper.Clients.Paging.Found.{flavor_on_later_page}
use ironic_temper.Text.{byte_len, decimal, remove_all}
use ironic_temper.Tests.Data.{answer, tempered, start, openstack}

-- The switch's answer: the port `eth1/7` sees the node's address.
abbrev seen : List Entry
seen = reply (record { id = "eth1/7"; neighbours = "AA:BB" ∷ [] }) ∷ []

-- Controllers that see the node's address at that port; the world is a text.
abbrev switches : AciApi (List Entry) String
switches = record {
  new_client = λ h w. w;
  poll = λ interval timeout c. attempts 3 c;
  make_rest_request = λ h w. (reply tt, w);
  do_request = λ h w. (record { container = some seen; status_code = some 200 }, w);
  check_for_errors = λ c. ok tt;
}

switches-AnswersAs : AnswersAs switches (λ host. reply seen)
unfolding attempts request
switches-AnswersAs = record { answers = λ host w. refl }

run_aci_check_ok_example :
    ((run_aci_check switches (start [])).0 ≡ ok tt)
    ↔ (all_cabled (λ host. reply seen) (or_empty (start []).node.interfaces) ≡ true)
run_aci_check_ok_example =
    run_aci_check_ok switches (λ host. reply seen) switches-AnswersAs (start [])

well_cabled : (run_aci_check switches (start [])).0 ≡ ok tt
unfolding run_aci_check ironic_temper.Node.Cabling.check_interfaces
    ironic_temper.Node.Cabling.check_interface ironic_temper.Text.contains
    ironic_temper.Node.Cabling.check_answer ironic_temper.Node.Cabling.entries_at
    ironic_temper.Diagnostics.Aci.get_container ironic_temper.Base.Dict.lookup attempts request
    ironic_temper.Node.Cabling.verdict ironic_temper.Node.Cabling.complaints
    ironic_temper.Node.Cabling.search_entries ironic_temper.Node.Mac.prepare_mac
    ironic_temper.Text.to_lower remove_all
well_cabled = refl

run_aci_check-held_example :
    all_cabled
      (held switches (client_after switches (start [])))
      (or_empty (start []).node.interfaces)
    ≡ true
run_aci_check-held_example = run_aci_check-held switches (start []) well_cabled

abbrev colon : Char
colon = ":"

parse_mac-bare_example : bare "aa:bb:cc:dd:ee:ff" ≡ bare "aabb-ccdd-eeff"
unfolding parse_mac with_separators bare remove_all byte_len
parse_mac-bare_example = parse_mac-bare "aabb-ccdd-eeff" "aa:bb:cc:dd:ee:ff" colon (inl refl) refl

abbrev first_page : List Named
first_page = record { name = "small"; value = "f-1" } ∷ []

abbrev second_page : List Named
second_page = record { name = "large"; value = "f-2" } ∷ []

flavor_on_later_page_example :
    (fold_pages (reply first_page ∷ reply second_page ∷ []) (flavor_handler "large") ""
      ≡ (reply tt, ""))
    × (fold_pages (reply first_page ∷ reply second_page ∷ []) (zone_handler "large") ""
        ≡ (reply tt, ""))
unfolding value_of
flavor_on_later_page_example =
    flavor_on_later_page fold_pages (λ pages handler s. refl) "large" first_page
      (reply second_page ∷ []) refl

-- Deltas cut to whole numbers.
abbrev whole : Floats ℕ
whole = record { of_int = λ n. n; div = λ a b. a; le = leb; tenth = 10; fifth = 20 }

abbrev needs : Needs
needs = record { mem = 64; disk = 400; cpu = 8 }

abbrev flavors : List Flavor
flavors =
    record { name = "small"; ram = 32; disk = 400; vcpus = 4 }
    ∷ record { name = "large"; ram = 60; disk = 390; vcpus = 8 }
    ∷ []

whole_trans : (a b c : ℕ) → leb a b ≡ true → leb b c ≡ true → leb a c ≡ true
whole_trans a b c h k = ground arith

consider_all-Chosen_example :
    (consider_all whole needs flavors (no_match whole) ≡ no_match whole)
    ⊎ Chosen whole needs flavors
        (no_match whole)
        (consider_all whole needs flavors (no_match whole))
consider_all-Chosen_example = consider_all-Chosen whole whole_trans needs flavors (no_match whole)

-- A node with an address, and a dns with one zone.
abbrev address : IpAddress
address = record { id = 1; address = some "10.1.2.3"; dns_name = "node001.cc.local" }

abbrev with_zone : OpenstackApi String
with_zone = record openstack {
  zones_by_name = λ n. answer (reply (record { id = "z-1" } ∷ []));
  parse_ip = λ ip. some (0 ∷ 0 ∷ 0 ∷ 0 ∷ 0 ∷ 0 ∷ 0 ∷ 0 ∷ 0 ∷ 0 ∷ 255 ∷ 255 ∷ 10 ∷ 1 ∷ 2 ∷ 3 ∷ []);
}

abbrev addressed : St String
addressed = record {
  node = record (tempered []) { ipam_addresses = address ∷ []; service_clients = "dns" ∷ [] };
  world = "";
}

all_recorded : create_dns_records with_zone reply addressed ≡ (ok tt, addressed)
unfolding create_dns_records get_service_client create_a_record create_ptr_record create_dns_record
    create_arpa_zone reverse_addr reverse_zone to4
all_recorded = refl

create_dns_records-AllRecorded_example :
    (ready : St String) × (get_service_client with_zone "dns" addressed ≡ (ok tt, ready))
    × AllRecorded with_zone reply addressed.node.cfg.domain (address ∷ []) ready.world ""
create_dns_records-AllRecorded_example =
    create_dns_records-AllRecorded with_zone reply addressed addressed all_recorded
