-- ===== src/Node/Redfish/Events.antt =====
-- The event subscriptions of pkg/node/redfish.go, which no task makes.
use ironic_temper.Base.{String, ◌<>◌, List, [], ◌∷◌}
use ironic_temper.Go.{Call, ◌>>=◌, ◌>>◌, drop_error}
use ironic_temper.Node.{Method, call, this}

-- What the methods call of gofish: the event service, and a subscription there.
pub record EventApi (W : Type 0) : Type 0 where
  pub event_service : Call W (Unit {0})
  pub create_subscription : String → List String → Call W (Unit {0})
  pub delete_subscription : String → Call W (Unit {0})

abbrev destination : String → String
destination name = "https://baremetal_temper/events/" <> name

module _ {W : Type 0} (api : EventApi W) where
  -- `CreateEventSubscription`
  unfoldable pub create_event_subscription : Method W (Unit {0})
  create_event_subscription = do
    call api.event_service
    n ← this
    call (api.create_subscription (destination n.name) ("Alert" ∷ "StatusChange" ∷ []))

  deleting : Method W (Unit {0})
  deleting = do
    call api.event_service
    n ← this
    call (api.delete_subscription (destination n.name))

  -- `DeleteEventSubscription` logs its errors and returns none.
  unfoldable pub delete_event_subscription : Method W (Unit {0})
  unfolding deleting
  delete_event_subscription = drop_error deleting
