-- ===== src/Clients/Keeping.antt =====
-- Making a service client, and using one, writes neither the status of a node nor its tasks.
use ironic_temper.Base.{String, arith}
use ironic_temper.Node.{OpenstackAuth}
use ironic_temper.Node.Keeps.{Keeps, keeps_rules}
use ironic_temper.Clients.{OpenstackApi, cached_client, get_service_client, new_provider_client}

pub cached_client-Keeps : {W : Type 0} (service : String) → Keeps {W = W} (cached_client service)
cached_client-Keeps service = record { status = λ s. ground arith; tasks = λ s. ground arith }

module _ {W : Type 0} (api : OpenstackApi W) where
  pub new_provider_client-Keeps : (auth : OpenstackAuth) → Keeps (new_provider_client api auth)
  unfolding new_provider_client
  new_provider_client-Keeps auth = search keeps_rules depth 20

  pub get_service_client-Keeps : (service : String) → Keeps (get_service_client api service)
  unfolding get_service_client
  get_service_client-Keeps service = search (keeps_rules, new_provider_client-Keeps) depth 20
