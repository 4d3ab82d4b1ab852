-- ===== src/Diagnostics/Dell/Restarts.antt =====
-- How often the diagnostics of a dell server are started again.
use ironic_temper.Base.{ℕ, zero, suc, ◌≡◌, refl, Bool, true, false, Option, none, some, arith}
use ironic_temper.Go.{Reply, reply, refused, Result, ok, err, panics}
use ironic_temper.Diagnostics.Dell.{DellApi, one_round, logged_out_later, ended, run}

module _ {W : Type 0} (api : DellApi W) where
  -- `k` rounds in a row, each of which connects, starts a job and finds that it could not be started.
  pub data Restarts : ℕ → W → W → Type 0 where
    begins : (w : W) → Restarts zero w w
    restarts :
        (k : ℕ) (w u v x : W)
        → api.connect w ≡ (reply tt, u)
        → one_round api u ≡ (ok true, v)
        → Restarts k v x
        → Restarts (suc k) w x

  later_none : (o : Option (Result (Unit {0}) × W)) → logged_out_later api o ≡ none → o ≡ none
  later_none none h = refl
  later_none (some out) h = cc

  ended-none :
      (out : Result Bool × W) (again : Option (Result (Unit {0}) × W))
      → ended api out again ≡ none
      → (out.0 ≡ ok true) × (again ≡ none)
  ended-none (ok true, w) again h = (refl, later_none again h)
  ended-none (ok false, w) again h = absurd (ground arith)
  ended-none (err e, w) again h = absurd (ground arith)
  ended-none (panics p, w) again h = absurd (ground arith)

  pub run_none : (fuel : ℕ) (w : W) → run api fuel w ≡ none → (x : W) × Restarts fuel w x
  unfolding run
  run_none zero w h = (w, begins w)
  run_none (suc fuel) w h =
      connected (api.connect w).0 refl (λ e. run_none fuel (one_round api (api.connect w).1).1 e)
    where
      u : W
      u = (api.connect w).1

      v : W
      v = (one_round api u).1

      connected :
          (r : Reply (Unit {0}))
          → (api.connect w).0 ≡ r
          → (run api fuel v ≡ none → (x : W) × Restarts fuel v x)
          → (x : W) × Restarts (suc fuel) w x
      connected (refused e) c rest = absurd (ground arith)
      connected (reply t) c rest =
          (x.0, restarts fuel w u v x.0 (ground (arith, c)) (ground (arith, e.0)) x.1)
        where
          e : ((one_round api u).0 ≡ ok true) × (run api fuel v ≡ none)
          e = ended-none (one_round api u) (run api fuel v) (ground (arith, h, c))

          x : (y : W) × Restarts fuel v y
          x = rest e.1
