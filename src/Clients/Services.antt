-- ===== src/Clients/Services.antt =====
-- `ServiceEnabled` and `getAPIVersion` of pkg/clients/openstack.go, and `GetNodeTags` of
-- pkg/clients/netbox.go, which nothing calls.
use ironic_temper.Base.{ℕ, String, Bool, List, [], ◌∷◌}
use ironic_temper.Go.{message, Exec, Call, ◌>>=◌, pure, fail, of_reply}

module _ {W : Type 0} where
  abbrev ask : {A : Type 0} → Call W A → Exec W A
  ask c w = let (r, w') = c w in of_reply r w'

  -- The first service decides; the error of reading the pages is dropped.
  abbrev first_enabled : List Bool → Exec W Bool
  first_enabled [] = fail (message "no service found")
  first_enabled (e ∷ es) = pure e

  -- `ServiceEnabled`, by all pages of the services of a name and by what is read of them: for each
  -- service, whether it is enabled.
  unfoldable pub service_enabled :
      {P : Type 0} → (String → Call W P) → (P → List Bool) → String → Exec W Bool
  service_enabled all_pages extract service = do
    pages ← ask (all_pages service)
    first_enabled (extract pages)

  -- `getAPIVersion`
  unfoldable pub get_api_version : {V : Type 0} → (String → Call W V) → Exec W V
  get_api_version api_version = ask (api_version "v1")

  -- `GetNodeTags`
  unfoldable pub get_node_tags :
      {D T : Type 0} → (ℕ → Call W D) → (D → List T) → ℕ → Exec W (List T)
  get_node_tags devices_read tags id = do d ← ask (devices_read id); pure (tags d)
