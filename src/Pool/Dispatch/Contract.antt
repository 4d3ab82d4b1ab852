-- ===== src/Pool/Dispatch/Contract.antt =====
-- What a pool of workers promises, without its channels: jobs wait, are tempered, and are finished.
use ironic_temper.Base.{ℕ, ◌+◌, ◌≡◌, arith, ◌==◌, if◌then◌else◌}
use ironic_temper.Pool.Dispatch.{
  Job, offering, selecting, gone, working, Dispatcher, count, receive, choose, hand_over, finish,
  Move, receives, chooses, hands_over, comes_back, returns,
}
use ironic_temper.Pool.Dispatch.Workers.{total-set_phase, count-without}
use ironic_temper.Pool.Dispatch.Jobs.{works_on, in_hand, running}

-- How many times each job waits, is tempered, and has been finished.
pub record Board : Type 0 where
  pub waiting : Job → ℕ
  pub running : Job → ℕ
  pub finished : Job → ℕ

-- The goroutines of the pool, seen as a board: a job in the hand of the dispatcher still waits.
abbrev pub board : Dispatcher → Board
board s = record {
  waiting = λ k. count k s.waiting + in_hand k s.hand;
  running = λ k. running k s;
  finished = λ k. count k s.finished;
}

abbrev pub one : Job → Job → ℕ
one j k = if j == k then 1 else 0

-- One step of the board.
pub data Promised (b c : Board) : Type 0 where
  rests :
      ((k : Job)
        → (c.waiting k ≡ b.waiting k) × (c.running k ≡ b.running k) × (c.finished k ≡ b.finished k))
      → Promised b c
  starts :
      (j : Job)
      → ((k : Job)
          → (c.waiting k + one j k ≡ b.waiting k)
            × (c.running k ≡ b.running k + one j k)
            × (c.finished k ≡ b.finished k))
      → Promised b c
  ends :
      (j : Job)
      → ((k : Job)
          → (c.waiting k ≡ b.waiting k)
            × (c.running k + one j k ≡ b.running k)
            × (c.finished k ≡ b.finished k + one j k))
      → Promised b c

-- Seen as a board of how many times each job waits, runs and is finished, each move of the dispatcher
-- or of a worker is one of three steps: a waiting job starts, a job that is tempered ends, or nothing
-- changes.
pub Move-Promised : (s t : Dispatcher) → Move s t → Promised (board s) (board t)
unfolding receive choose hand_over finish count
Move-Promised s t (receives j _ h e) = rests (λ k. ground (arith, h, count-without j k s.waiting))
Move-Promised s t (chooses j i _ h e) =
    rests (λ k. ground (arith, h, total-set_phase (works_on k) i offering selecting s.workers e))
Move-Promised s t (hands_over j i _ h e) =
    starts j
      (λ k. ground (arith, h, total-set_phase (works_on k) i selecting (working j) s.workers e))
Move-Promised s t (comes_back j i _ e) =
    ends j (λ k. ground (arith, total-set_phase (works_on k) i (working j) offering s.workers e))
Move-Promised s t (returns j i _ e) =
    ends j (λ k. ground (arith, total-set_phase (works_on k) i (working j) gone s.workers e))
