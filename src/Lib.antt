-- ===== src/Lib.antt =====
-- Baremetal temper: a program in Go that takes new servers ("nodes") into service. It reads what
-- netbox knows of a node, reads the node's hardware by redfish, runs the tasks that are configured
-- for it (dns records, cable and hardware checks, the registration with openstack's ironic, a test
-- instance in nova), and tells netbox how it went.
--
-- The parts, and where they are modelled:
--   * Go: error values, panics, methods on shared state. `Exec S A` is a method that writes the state
--     `S` and returns, fails or panics; `Call W A` is a call of another package on the world `W`.
--     Go.Polling and Go.Pages state the documented behaviour of `wait.Poll` and of `EachPage`;
--     Go.Sequence takes apart a sequence of statements that ended well.
--   * Base, Text: the shared names, association lists for maps (Base.Dict), and the functions of
--     Go's package strings that the program calls.
--   * Node: the data of pkg/node/node.go, pkg/task/task.go and pkg/config/config.go. A method of
--     `*Node` runs on a node and on the world outside (`St W`, `Method W A`).
--   * Node.Temper: `Temper` and `cleanupHandler` of pkg/node/node.go, over the methods they call.
--   * Node.Tasks: `initTaskExecs`, `AddTask` and `MergeTaskWithContext` of pkg/node/task.go. The
--     functions that a task runs are named by `Fn`; Node.Wiring says which method each name runs.
--   * Node.Netbox: pkg/node/netbox.go, with `SetStatus` and `update` in Node.Netbox.Status.
--   * Node.Baremetal: pkg/node/baremetal.go, by what the methods do: Create, Update, Provision,
--     Instance.
--   * Node.Redfish, Node.Mac: pkg/node/redfish.go: power, inventory, network ports, virtual media,
--     and the names and addresses of ports.
--   * Node.Openstack: pkg/node/openstack.go: dns records and the flavor that fits a node; Node.Rules its
--     `getRules`.
--   * Node.Cabling: the cable checks of pkg/node/diagnostics.go, for aci and (Arista) arista switches.
--     The check for aci switches makes a client of Diagnostics.Aci and keeps it to its end (Held).
--   * Node.Keeps and the modules named Keeping: lemmas, method by method, on what is written to the
--     status of a node and to its tasks; Node.Wiring.Tidy puts them together.
--     Node.Respects has the like for any relation between the node before and after.
--   * Clients: pkg/clients/openstack.go and pkg/clients/util.go: the cached service clients, dns
--     zones and records, and the lookups in listings of pages; Awx and Netbox the files of that name.
--   * Diagnostics: pkg/diagnostics: Dell the remote diagnostics of a server, which Node.Wiring takes
--     as a function that comes to an end; Aci the client that asks the switches and caches what
--     they answer.
--   * Node.New: `New` of pkg/node/node.go.
--   * Pool: pkg/temper: `AddNode`, the clean-up of the node map, and a worker's handling of a job.
--     How far a call of `AddNode` comes is `Adding`; Pool.System has the steps that decide it.
--     Pool.Dispatch: the dispatcher and the workers as goroutines on channels (`Move`, `Stop`,
--     `Steps`); a send and its receive are one step. A send to a worker that took the message of
--     `Stop` is one on a closed channel: it panics, the program is over, and there is no step.
--     Pool.System: all of it together (`Turn`, `Turns`): the map of pointers behind its lock, the nodes
--     that they lead to, the clean-ups, and workers that run `work`. The work on a job is one step, at
--     its end, in a world that others have left in any state; so a node is followed there only if it
--     was given once, so that no other goroutine writes to it meanwhile.
--   * Server: pkg/server: the webhook, which gives nodes to Pool, and the other handlers.
--   * Scheduler: `temper` of pkg/scheduler/scheduler.go, as steps of goroutines that take turns at the
--     lock (`Step`, `Steps`), and what a goroutine does between its two sections; Loading `loadNodes`
--     and the rounds of `Start`.
--   * Command: the commands of cmd/temper.go and cmd/all.go, as steps (`Move`, `Moves`) of their loop
--     and of the goroutines that it starts, with the counter of the wait group.
--   * Startup: `InitConfig` of cmd/root.go and how the main functions of cmd/temper and cmd/scheduler
--     come to their configuration.
--   * Files: the files of pkg/config/config.go and pkg/config/rules.go.
--   * Tests: the theorems on concrete nodes, with parameters that are concrete functions.
--
-- Calls of other packages (gophercloud, gofish, the netbox client, the switches, the network, the
-- decoders of JSON, the clock) are fields of records such as `OpenstackApi`, `BaremetalApi`,
-- `NetboxApi`, `RedfishApi` and `DellApi`, functions of the world; floating-point numbers are the
-- record `Floats`. What a theorem needs of them is a hypothesis. Loops are structural recursion, so
-- there is no fuel, save in two places. The number of attempts of a poll is decided by the clock: the
-- model of the call takes it from outside, and the theorems hold for each such number. `Run` of
-- Diagnostics.Dell calls itself without a bound: its fuel is the number of its rounds (for what
-- a run does that no number is enough for, see Diagnostics.Dell.Unended). The order in which a range
-- statement visits a map is the order of the association list, and the theorems hold for each such
-- order. The goroutines of Command meet the world in any state.
--
-- Not modelled: loggers; the matching of routes (Server has their table) and the event loop, which
-- prints; the registration of flags, signals and the start of the http servers (cmd/root.go,
-- cmd/temper/main.go, cmd/scheduler/main.go), which call libraries; the chart and the vendored
-- packages.
pub mod Base
pub mod Go
pub mod Text
pub mod Node
pub mod Clients
pub mod Diagnostics
pub mod Pool
pub mod Server
pub mod Scheduler
pub mod Command
pub mod Files
pub mod Startup
mod Tests
