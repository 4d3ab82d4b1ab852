-- ===== src/Scheduler/Loading.antt =====
-- `loadNodes` and the rounds of `Start` of pkg/scheduler/scheduler.go. The file and its decoding are
-- parameters.
use ironic_temper.Base.{◌≡◌, String, true, Option, none, some, List, [], ◌∷◌, arith}
use ironic_temper.Base.Dict.{Dict, lookup}
use ironic_temper.Go.{Reply, Result, ok, err, panics, Exec, Call, ◌>>=◌, pure, of_reply, branch}
use ironic_temper.Clients.Netbox.{DeviceParams, load_nodes}
use ironic_temper.Node.{Config}
use ironic_temper.Text.{is_empty}

-- `NetboxDiscovery`
pub record NetboxDiscovery : Type 0 where
  pub targets : List String
  pub labels : Dict String

-- A label that is not there is an empty text.
abbrev or_blank : Option String → String
or_blank none = ""
or_blank (some s) = s

abbrev pub server_names : List NetboxDiscovery → List String
server_names [] = []
server_names (t ∷ ts) = or_blank (lookup "server_name" t.labels) ∷ server_names ts

-- How a round of the loop ends: with the goroutines of these nodes and a wait for the ticker or the
-- end of the context, at once with the next round, or in a panic.
pub data RoundEnd : Type 0 where
  waits : List String → RoundEnd
  at_once : RoundEnd
  panicking : String → RoundEnd

abbrev round_end : Result (List String) → RoundEnd
round_end (ok nodes) = waits nodes
round_end (err e) = at_once
round_end (panics p) = panicking p

module _ {W : Type 0} (devices_list : DeviceParams → Call W (List (Option String)))
    (read_file : String → Call W String) (unmarshal : String → Reply (List NetboxDiscovery)) where
  abbrev read : String → Exec W String
  read path w = let (r, w') = read_file path w in of_reply r w'

  from_file : String → Exec W (List String)
  from_file path = do d ← read path; targets ← of_reply (unmarshal d); pure (server_names targets)

  -- `loadNodes`: without a file, netbox is asked for no status.
  unfoldable pub load_scheduled : Config → Exec W (List String)
  unfolding from_file
  load_scheduled cfg =
      branch (is_empty cfg.netbox_nodes_path)
        (load_nodes devices_list cfg.netbox_query none (some cfg.region))
        (from_file cfg.netbox_nodes_path)

  -- A round of the loop of `Start`.
  unfoldable pub scheduled_round : Config → W → RoundEnd × W
  scheduled_round cfg w = let (r, w') = load_scheduled cfg w in (round_end r, w')

  -- A scheduler without a file of nodes panics in its first round, before it has asked anything.
  pub scheduled_round_panics :
      (cfg : Config) (w : W)
      → is_empty cfg.netbox_nodes_path ≡ true
      → scheduled_round cfg w ≡ (panicking "nil pointer dereference", w)
  unfolding scheduled_round load_scheduled load_nodes
  scheduled_round_panics cfg w h = ground (arith, h)
