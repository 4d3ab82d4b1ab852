-- ===== src/Tests/System.antt =====
-- A pool of one worker and one node, and a pool that has lost its worker.
use mathlib.Core.Path.{subst}
use ironic_temper.Base.{
  code, ◌==◌, if◌then◌else◌, ◌≡◌, ◌≤◌, zero, suc, length, refl, String, some, none, List, [], ◌∷◌,
  arith, ◌=ₛ◌,
}
use ironic_temper.Go.{Reply, reply, refused, message}
use ironic_temper.Node.{Task}
use ironic_temper.Node.Wiring.{node_methods}
use ironic_temper.Base.Dict.{lookup, insert}
use ironic_temper.Pool.System.Wasted.{IsForeign, finished-num_workers}
use ironic_temper.Pool.{unmarshal_config_context, work}
use ironic_temper.Pool.System.Listed.{pool_of, lookup-clean_up}
use ironic_temper.Pool.Dispatch.{
  Job, offering, gone, started, submit, receive, choose, hand_over, finish, count, without,
  set_phase, receives, chooses, hands_over, comes_back, returns,
}
use ironic_temper.Pool.Jobs.{if_staged}
use ironic_temper.Pool.Dispatch.Rest.{HasWorker, IsAtRest}
use ironic_temper.Pool.Dispatch.Workers.{total}
use ironic_temper.Pool.System.Locked.{locked_for_ever}
use ironic_temper.Pool.System.Entering.{at_most_two_more}
use ironic_temper.Pool.System.{
  clean_up, get_nodes, nodes_at, System, new_system, write_node, add, unlock, phase_after, worked,
  end_job, unlocks, passes, ends, Turns, over, adds, turns,
}
use ironic_temper.Pool.System.Given.{given_once_failed}
use ironic_temper.Tests.Dispatch.{first-Move, second-Move, third-Move}
use ironic_temper.Tests.Staged.{reachable, job}

abbrev empty_pool : System
empty_pool = new_system 1 (λ k. job.node)

abbrev adding_job : System
adding_job = add 7 empty_pool

abbrev received_job : System
received_job = record adding_job { board = receive 7 adding_job.board }

abbrev added_job : System
added_job = unlock received_job

abbrev chosen_job : System
chosen_job = record added_job { board = choose 7 0 added_job.board }

abbrev tempering_job : System
tempering_job = record chosen_job { board = hand_over 7 0 chosen_job.board }

-- The steps up to the work on the job.
until_work :
    (unmarshal : String → Reply (List Task)) (js : List Job) (t : System)
    → Turns (node_methods reachable) unmarshal tempering_job js t
    → Turns (node_methods reachable) unmarshal empty_pool (7 ∷ js) t
unfolding new_system add unlock receive choose hand_over submit started set_phase without count
until_work unmarshal js t p = adds 7 js empty_pool t refl (
    turns js adding_job received_job t (passes received_job.board adding_job first-Move refl) (
      turns js received_job added_job t (unlocks 7 received_job refl refl) (
        turns js added_job chosen_job t (passes chosen_job.board added_job second-Move refl) (
          turns js chosen_job tempering_job t
            (passes tempering_job.board chosen_job third-Move refl) p))))

-- Bytes that begin with a letter, and objects that begin with a brace.
abbrev gob : String → Reply String
gob text = reply (String.◌∷◌ "g" text)

abbrev json : String → Reply (List Task)
json String.[] = refused (message "unexpected end of JSON input")
json (String.◌∷◌ c rest) =
    if code c == b'{' then reply [] else refused (message "invalid character")

abbrev bytes_of : Reply String → String
bytes_of (reply bytes) = bytes
bytes_of (refused e) = ""

gob-IsForeign : IsForeign gob json
gob-IsForeign text bytes h = (
  message "invalid character",
  subst (λ r. json (bytes_of r) ≡ refused (message "invalid character")) h refl,
)

-- The worker leaves its loop on a context that cannot be read.
abbrev unreadable : String → Reply (List Task)
unreadable = unmarshal_config_context gob json

abbrev lost_pool : System
lost_pool = end_job (node_methods reachable) unreadable 7 0 gone "" tempering_job

leaves : phase_after (worked (node_methods reachable) unreadable 7 "" tempering_job).0 ≡ some gone
unfolding phase_after work new_system add unlock write_node unmarshal_config_context
leaves = refl

losing_run : Turns (node_methods reachable) unreadable empty_pool (7 ∷ []) lost_pool
unfolding new_system add unlock receive choose hand_over submit started set_phase
losing_run = until_work unreadable [] lost_pool (
    turns [] tempering_job lost_pool lost_pool (ends 7 0 gone "" tempering_job refl leaves)
      (over lost_pool))

-- Two more nodes.
abbrev eighth : System
eighth = add 8 lost_pool

abbrev eighth_received : System
eighth_received = record eighth { board = receive 8 eighth.board }

abbrev eighth_added : System
eighth_added = unlock eighth_received

abbrev stuck : System
stuck = add 9 eighth_added

two_more : Turns (node_methods reachable) unreadable lost_pool (8 ∷ 9 ∷ []) stuck
unfolding new_system add unlock end_job receive choose hand_over finish submit started set_phase
    without count
two_more = adds 8 (9 ∷ []) lost_pool stuck refl (
    turns (9 ∷ []) eighth eighth_received stuck
      (passes eighth_received.board eighth (receives 8 eighth.board refl (omega arith)) refl)
      (turns (9 ∷ []) eighth_received eighth_added stuck (unlocks 8 eighth_received refl refl)
        (adds 9 [] eighth_added stuck refl (over stuck))))

at_most_two_more_example : length {A = Job} (8 ∷ 9 ∷ []) ≤ 2
unfolding new_system add unlock end_job receive choose hand_over finish submit started set_phase
    total
at_most_two_more_example =
    at_most_two_more (node_methods reachable) unreadable 1 (λ k. job.node) (7 ∷ []) lost_pool stuck
      (8 ∷ 9 ∷ []) losing_run refl two_more

locked_for_ever_example :
    (stuck.adding ≡ some 9) × (◌≡◌ {A = List Job} [] []) × (get_nodes stuck ≡ none)
unfolding new_system add unlock end_job receive choose hand_over finish submit started set_phase
    total count without
locked_for_ever_example =
    locked_for_ever (node_methods reachable) unreadable 9 8 stuck stuck []
      (refl, omega arith, refl, refl) (over stuck)

lookup-clean_up_example :
    lookup job.node.name (pool_of (clean_up (unlock (add 8 lost_pool)))).nodes ≡ (
      if job.node.name =ₛ job.node.name
      then none
      else if_staged (lookup job.node.name (pool_of lost_pool).nodes))
unfolding new_system add unlock end_job insert lookup nodes_at write_node
lookup-clean_up_example = lookup-clean_up 8 lost_pool job.node.name (refl, tt) (refl, tt)

finished-num_workers_example : length lost_pool.board.finished ≤ 1
finished-num_workers_example =
    finished-num_workers (node_methods reachable) gob json gob-IsForeign 1 (λ k. job.node) (7 ∷ [])
      lost_pool losing_run

-- A pool of two workers, of which the first leaves its loop.
abbrev pair_added : System
pair_added = add 7 (new_system 2 (λ k. job.node))

abbrev pair_received : System
pair_received = record pair_added { board = receive 7 pair_added.board }

abbrev pair_unlocked : System
pair_unlocked = unlock pair_received

abbrev pair_chosen : System
pair_chosen = record pair_unlocked { board = choose 7 0 pair_unlocked.board }

abbrev pair_tempering : System
pair_tempering = record pair_chosen { board = hand_over 7 0 pair_chosen.board }

abbrev pair_failed : System
pair_failed = end_job (node_methods reachable) unreadable 7 0 gone "" pair_tempering

pair_leaves :
    phase_after (worked (node_methods reachable) unreadable 7 "" pair_tempering).0 ≡ some gone
unfolding phase_after work new_system add unlock write_node unmarshal_config_context
pair_leaves = refl

pair_run :
    Turns (node_methods reachable) unreadable (new_system 2 (λ k. job.node)) (7 ∷ []) pair_failed
unfolding new_system add unlock receive choose hand_over submit started set_phase without count
pair_run = adds 7 [] (new_system 2 (λ k. job.node)) pair_failed refl (
    turns [] pair_added pair_received pair_failed
      (passes pair_received.board pair_added (receives 7 pair_added.board refl (omega arith)) refl)
      (turns [] pair_received pair_unlocked pair_failed (unlocks 7 pair_received refl refl) (
        turns [] pair_unlocked pair_chosen pair_failed
          (passes pair_chosen.board pair_unlocked (chooses 7 0 pair_unlocked.board refl refl) refl)
          (turns [] pair_chosen pair_tempering pair_failed
            (passes pair_tempering.board pair_chosen (hands_over 7 0 pair_chosen.board refl refl)
              refl)
            (turns [] pair_tempering pair_failed pair_failed
              (ends 7 0 gone "" pair_tempering refl pair_leaves) (over pair_failed))))))

second_is_left : HasWorker pair_failed.board
unfolding new_system add unlock end_job started submit receive choose hand_over finish set_phase
second_is_left = (1, offering, refl, cc)

pair-IsAtRest : IsAtRest pair_failed.board
unfolding new_system add unlock end_job started submit receive choose hand_over finish count without
    set_phase
pair-IsAtRest t (receives j _ h e) = absurd (ground arith)
pair-IsAtRest t (chooses j i _ h e) = absurd (ground (arith, h))
pair-IsAtRest t (hands_over j i _ h e) = absurd (ground (arith, h))
pair-IsAtRest t (comes_back j zero _ e) = absurd (ground (arith, e))
pair-IsAtRest t (comes_back j (suc zero) _ e) = absurd (ground (arith, e))
pair-IsAtRest t (comes_back j (suc (suc i)) _ e) = absurd (ground (arith, e))
pair-IsAtRest t (returns j zero _ e) = absurd (ground (arith, e))
pair-IsAtRest t (returns j (suc zero) _ e) = absurd (ground (arith, e))
pair-IsAtRest t (returns j (suc (suc i)) _ e) = absurd (ground (arith, e))

given_once_failed_example : (pair_failed.node_of 7).status ≡ "failed"
unfolding new_system add unlock end_job count started submit receive choose hand_over finish
    set_phase
given_once_failed_example =
    given_once_failed (node_methods reachable) gob json gob-IsForeign 2 (λ k. job.node) (7 ∷ [])
      pair_failed pair_run refl second_is_left pair-IsAtRest 7 refl
