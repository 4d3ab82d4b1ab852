-- ===== src/Node/Cabling/Keeping.antt =====
-- The cable check writes neither the status of the node nor its tasks.
use ironic_temper.Base.{List, refl}
use ironic_temper.Diagnostics.Aci.{AciApi}
use ironic_temper.Node.Keeps.{Keeps}
use ironic_temper.Node.Cabling.{Entry, run_aci_check}

module _ {W : Type 0} (api : AciApi (List Entry) W) where
  pub run_aci_check-Keeps : Keeps (run_aci_check api)
  unfolding run_aci_check
  run_aci_check-Keeps = record { status = λ s. refl; tasks = λ s. refl }
