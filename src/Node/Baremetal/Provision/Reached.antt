-- ===== src/Node/Baremetal/Provision/Reached.antt =====
-- What ironic has reported where the routines of pkg/node/baremetal.go that wait return no error.
use ironic_temper.Base.{ℕ, ◌≡◌, String, Bool}
use ironic_temper.Go.{Reply, ok, ◌>>◌}
use ironic_temper.Go.Polling.{IsPoll, ReportedTrue, poll-ReportedTrue}
use ironic_temper.Go.Sequence.{call_ok}
use ironic_temper.Node.{St, Method, call}
use ironic_temper.Node.Baremetal.{BaremetalApi}
use ironic_temper.Node.Baremetal.Provision.{state_is, try_provision_state}

module _ {W : Type 0} (api : BaremetalApi W) (law : IsPoll api.poll) where
  -- A poll without an error: its condition reported true in the world that it leaves.
  polled :
      (interval timeout : ℕ) (c : W → Reply Bool × W) (s t : St W)
      → call (api.poll interval timeout c) s ≡ (ok tt, t)
      → ReportedTrue c t.world × (t.node ≡ s.node)
  polled interval timeout c s t h =
      let (e, k) = call_ok (api.poll interval timeout c) s t tt h in
      (poll-ReportedTrue law interval timeout c s.world t.world e, k)

  -- The statements of `provide`, from the last to the first.
  abbrev awaits_available : String → Method W (Unit {0})
  awaits_available uuid = call (api.poll 5 60 (state_is api uuid "available"))

  abbrev provides : String → Method W (Unit {0})
  provides uuid =
      call (api.poll 5 120 (try_provision_state api uuid "provide")) >> awaits_available uuid

  abbrev awaits_manageable : String → Method W (Unit {0})
  awaits_manageable uuid = call (api.poll 5 60 (state_is api uuid "manageable")) >> provides uuid

  abbrev manages : String → Method W (Unit {0})
  manages uuid =
      call (api.poll 5 120 (try_provision_state api uuid "manage")) >> awaits_manageable uuid
