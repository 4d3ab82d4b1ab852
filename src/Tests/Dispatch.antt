-- ===== src/Tests/Dispatch.antt =====
-- One worker and one job.
use ironic_temper.Base.{◌≡◌, ◌≢◌, zero, suc, ◌+◌, ◌<◌, length, refl, [], ◌∷◌, arith}
use ironic_temper.Pool.Dispatch.{
  Dispatcher, offering, gone, not_called, at_queue, started, submit, receive, choose, hand_over,
  finish, count, without, set_phase, Move, receives, chooses, hands_over, comes_back, returns,
  begins, Steps, stays, submits, moves, stops,
}
use ironic_temper.Pool.Dispatch.Workers.{total}
use ironic_temper.Pool.Dispatch.Jobs.{in_hand, running, Steps-count}
use ironic_temper.Pool.Dispatch.Progress.{rests, goes, moves_left, Moves-moves_left}
use ironic_temper.Pool.Dispatch.Rest.{HasWorker, IsAtRest, rest-finished, alive}
use ironic_temper.Pool.Dispatch.Stopping.{stop_never_ends}
use ironic_temper.Pool.Dispatch.Contract.{board, Promised, Move-Promised}

-- A job with the number 7, from its submission to its end.
abbrev pub submitted : Dispatcher
submitted = submit 7 (started 1)

abbrev pub received : Dispatcher
received = receive 7 submitted

abbrev pub chosen : Dispatcher
chosen = choose 7 0 received

abbrev pub tempering : Dispatcher
tempering = hand_over 7 0 chosen

abbrev pub over : Dispatcher
over = finish 7 0 offering tempering

pub first-Move : Move submitted received
unfolding started submit count without set_phase
first-Move = receives 7 submitted refl (omega arith)

pub second-Move : Move received chosen
unfolding started submit receive set_phase
second-Move = chooses 7 0 received refl refl

pub third-Move : Move chosen tempering
unfolding started submit receive choose set_phase
third-Move = hands_over 7 0 chosen refl refl

last-Move : Move tempering over
unfolding started submit receive choose hand_over set_phase
last-Move = comes_back 7 0 tempering refl

run_of_job : Steps (started 1) (7 ∷ []) over
run_of_job = submits 7 [] (started 1) over (
    moves [] submitted received over first-Move (
      moves [] received chosen over second-Move (
        moves [] chosen tempering over third-Move
          (moves [] tempering over over last-Move (stays over)))))

Steps-count_example :
    count 7 over.waiting + in_hand 7 over.hand + running 7 over + count 7 over.finished
    ≡ count 7 (7 ∷ [])
Steps-count_example = Steps-count 1 (7 ∷ []) over run_of_job 7

Moves-moves_left_example : 2 + moves_left chosen ≡ moves_left submitted
Moves-moves_left_example = Moves-moves_left 2 submitted chosen (
    goes 1 submitted received chosen first-Move
      (goes 0 received chosen chosen second-Move (rests chosen)))

pub has_worker : HasWorker over
unfolding started submit receive choose hand_over finish set_phase
has_worker = (0, offering, refl, cc)

pub at_rest : IsAtRest over
unfolding started submit receive choose hand_over finish count without set_phase
at_rest t (receives j _ h e) = absurd (ground arith)
at_rest t (chooses j i _ h e) = absurd (ground (arith, h))
at_rest t (hands_over j i _ h e) = absurd (ground (arith, h))
at_rest t (comes_back j zero _ e) = absurd (ground (arith, e))
at_rest t (comes_back j (suc i) _ e) = absurd (ground (arith, e))
at_rest t (returns j zero _ e) = absurd (ground (arith, e))
at_rest t (returns j (suc i) _ e) = absurd (ground (arith, e))

pub calm : over.stopper ≡ not_called
unfolding started submit receive choose hand_over finish set_phase
calm = refl

rest-finished_example : count 7 over.finished ≡ count 7 (7 ∷ [])
rest-finished_example = rest-finished 1 (7 ∷ []) over run_of_job calm has_worker at_rest 7

Move-Promised_example : Promised (board chosen) (board tempering)
Move-Promised_example = Move-Promised chosen tempering third-Move

-- The only worker has returned from its job, and `Stop` is called.
abbrev lost : Dispatcher
lost = finish 7 0 gone tempering

abbrev stopping : Dispatcher
stopping = record lost { stopper = at_queue 1 }

stop_begins : Steps lost [] stopping
unfolding started submit receive choose hand_over finish set_phase
stop_begins = stops [] lost stopping stopping (begins lost refl) (stays stopping)

not_stopped : lost.stopper ≡ not_called
unfolding started submit receive choose hand_over finish set_phase
not_stopped = refl

fewer : total alive lost.workers < length lost.workers
unfolding started submit receive choose hand_over finish total set_phase
fewer = omega arith

stop_never_ends_example : stopping.stopper ≢ at_queue 0
stop_never_ends_example = stop_never_ends lost stopping [] not_stopped fewer stop_begins
