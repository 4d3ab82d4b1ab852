-- ===== src/Server.antt =====
-- pkg/server/handler.go and webhook.go: the requests that reach the server. The router and the decoder
-- of JSON are other packages.
pub mod Webhook
use ironic_temper.Base.{
  ℕ, String, ◌<>◌, Bool, true, false, not, ◌&&◌, ◌||◌, Option, none, some, List, [], ◌∷◌, ◌++◌,
  ◌=ₛ◌, if◌then◌else◌,
}
use ironic_temper.Base.Dict.{Dict, lookup}
use ironic_temper.Go.{Error, Reply, reply, refused, Result, ok, err, panics}
use ironic_temper.Node.{Node, Config}
use ironic_temper.Node.New.{new_node}
use ironic_temper.Pool.{Pool, Adding, returned, add_node}
use ironic_temper.Text.{contains, split}

-- `webhookBody` with the types below it, the fields that are read.
pub record Data : Type 0 where
  pub name : String
  pub role_slug : String
  pub status_value : String
  pub site_slug : String

pub record Snapshot : Type 0 where
  pub pre_change_status : String
  pub post_change_status : String

pub record WebhookBody : Type 0 where
  pub event : String
  pub event_data : Data
  pub snapshots : Snapshot

-- What the decoder has written to the body, and the error beside it.
pub record Decoded : Type 0 where
  pub body : WebhookBody
  pub error : Option Error

-- What a handler does with the response: the calls of `WriteHeader`, and what it prints.
pub record Response : Type 0 where
  pub headers : List ℕ
  pub text : String

abbrev no_response : Response
no_response = record { headers = []; text = "" }

abbrev write_header : ℕ → Response → Response
write_header code r = record r { headers = r.headers ++ (code ∷ []) }

-- The response of a handler, the nodes of the server, and the clean-ups that it has started.
pub record Served : Type 0 where
  pub response : Response
  pub pool : Pool
  pub cleanups : ℕ

-- `webhookHandler` after the decoding: whether the node is added.
unfoldable pub is_wanted : String → WebhookBody → Bool
is_wanted region wb =
    if not (contains wb.event_data.site_slug region)
    then false
    else if not (wb.event_data.status_value =ₛ "inventory")
        || not (wb.event_data.role_slug =ₛ "server")
    then false
    else not (wb.snapshots.pre_change_status =ₛ "inventory")
      && wb.snapshots.post_change_status =ₛ "inventory"

-- The rest of the handler, by how far its call of `AddNode` comes. Where it waits there is no result.
abbrev sent : Adding → Node → Response → Pool → Option (Result (Unit {0})) × Served
sent returned n r t = (
  some (ok tt),
  record { response = write_header 200 r; pool = add_node returned n t; cleanups = 1 },
)
sent how n r t = (none, record { response = r; pool = add_node how n t; cleanups = 0 })

abbrev added :
    Adding → Result (Unit {0}) × Node → Response → Pool → Option (Result (Unit {0})) × Served
added how (panics p, n) r t = (some (panics p), record { response = r; pool = t; cleanups = 0 })
added how (_, n) r t = sent how n r t

abbrev error_header : Option Error → Response → Response
error_header none r = r
error_header (some e) r = write_header 500 r

-- `webhookHandler`: an undecodable body is answered with an error, and what was read of it is used.
-- The error of `node.New` is dropped. The handler has no result while its call of `AddNode` waits.
unfoldable pub webhook_handler :
    Reply (Unit {0}) → Config → Adding → Decoded → Pool → Option (Result (Unit {0})) × Served
webhook_handler tls cfg how d t =
    let r = error_header d.error no_response in
    if is_wanted cfg.region d.body
    then added how (new_node tls d.body.event_data.name cfg) r t
    else (some (ok tt), record { response = write_header 200 r; pool = t; cleanups = 0 })

-- `nodeListHandler`, by the encoder of JSON.
unfoldable pub node_list_handler : (Dict Node → Reply String) → Pool → Response
node_list_handler encode t = elim (encode t.nodes) [
  | reply text ↦ record { headers = []; text = text }
  | refused e ↦ record { headers = 500 ∷ []; text = "" }
]

-- `execTasks` looks at the names of the tasks and does nothing.
abbrev exec_tasks : String → List String → Result (Unit {0})
exec_tasks n vals = ok tt

abbrev executed : String → Result (Unit {0}) → Response
executed n (err e) = record { headers = 500 ∷ []; text = "node: " <> n }
executed n _ = record { headers = []; text = "node: " <> n }

-- `temperHandler`, by the variables of the route and the values of the query.
unfoldable pub temper_handler : Dict String → List String → Response
temper_handler vars vals = elim (lookup "node" vars) [
  | none ↦ record { headers = 400 ∷ []; text = "" }
  | some n ↦ executed n (exec_tasks n vals)
]

-- The functions that answer a request.
pub data Endpoint : Type 0 where
  events node_tasks node_list webhook : Endpoint

-- A route of the router: a pattern, the method that it is for, and the function.
pub record Route : Type 0 where
  pub pattern : String
  pub method : Option String
  pub endpoint : Endpoint

-- `RegisterEventRoute`
unfoldable pub register_event_route : List Route → List Route
register_event_route routes =
    routes ++ (record { pattern = "/events/"; method = none; endpoint = events } ∷ [])

abbrev node_routes : List Route
node_routes =
    record {
      pattern = "/api/nodes/{node}/tasks/{task}";
      method = some "POST";
      endpoint = node_tasks;
    }
    ∷ record { pattern = "/api/nodes"; method = some "GET"; endpoint = node_list }
    ∷ []

-- `RegisterAPIRoutes`. The webhook is there only with a pool.
unfoldable pub register_api_routes : Option Pool → List Route → List Route
register_api_routes none routes = routes ++ node_routes
register_api_routes (some t) routes =
    routes
    ++ node_routes
    ++ (record { pattern = "/api/nodes/webhook"; method = some "POST"; endpoint = webhook } ∷ [])

-- How a request for an event ends: it is printed, the process ends by `log.Fatal`, or the handler panics.
pub data EventEnd : Type 0 where
  printed : String → String → EventEnd
  exited : Error → EventEnd
  panicked : String → EventEnd

abbrev print_event : List String → String → EventEnd
print_event (a ∷ b ∷ name ∷ rest) body = printed name body
print_event _ body = panicked "index out of range"

-- `eventHandler`, by the path of the request and what was read of its body.
unfoldable pub event_handler : String → Reply String → EventEnd
event_handler path (refused e) = exited e
event_handler path (reply body) = print_event (split b'/' path) body
