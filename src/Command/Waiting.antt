-- ===== src/Command/Waiting.antt =====
-- What the wait group of a command counts, and what has happened when the command stops waiting.
use ironic_temper.Base.{
  ◌≡◌, inl, inr, ℕ, zero, suc, ◌+◌, refl, sym, ◌∙◌, String, Bool, some, List, [], ◌∷◌, length,
  length-append, get_elem?, arith,
}
use ironic_temper.Go.{Reply, ok}
use ironic_temper.Node.{Node, Config, St}
use ironic_temper.Node.Temper.{Methods, temper}
use ironic_temper.Node.Temper.Cleanup.{temper-done, temper_at_zero}
use ironic_temper.Command.{
  Command, begun, launch, skip, end_at, remove_at, Move, launches, skips, ends, Moves, stays, goes,
}

length-remove_at :
    {A : Type 0} (i : ℕ) (xs : List A) (x : A)
    → get_elem? xs i ≡ some x
    → suc (length (remove_at i xs)) ≡ length xs
length-remove_at i [] x h = absurd (ground arith)
length-remove_at zero (y ∷ ys) x h = refl
length-remove_at (suc i) (y ∷ ys) x h = ground (arith, length-remove_at i ys x h)

-- The counter is the number of the goroutines, and every name of the command is still to visit,
-- refused, running or at its end.
pub record IsCounted (names : List String) (c : Command) : Type 0 where
  pub counts : c.counter ≡ length c.running
  pub covers : length names ≡ length c.remaining + length c.running + c.refusals + c.ends

module _ {W : Type 0} (m : Methods W) (tls : Reply (Unit {0})) (cfg : Config) (netbox_sts : Bool)
    (prepare : Node → Node) where
  -- A goroutine that ends well takes one from the counter.
  ended_counter : (c k : ℕ) (s : St W) → (temper m netbox_sts c s).0 ≡ ok k → c ≡ suc k
  ended_counter zero k s h =
      absurd (let (p, e) = temper_at_zero m netbox_sts s in ground (arith, e, h))
  ended_counter (suc c) k s h = elim (temper-done m netbox_sts c s) [
    | inl e ↦ ground (arith, e, h)
    | inr e ↦ absurd (ground (arith, e.1, h))
  ]

  Move-IsCounted :
      (names : List String) (c d : Command)
      → Move m tls cfg netbox_sts prepare c d
      → IsCounted names c
      → IsCounted names d
  unfolding launch skip end_at
  Move-IsCounted names _ _ (launches name rest n c r e) v = record {
    counts = ground (arith, v.counts, length-append c.running (prepare n ∷ []));
    covers = ground (arith, v.covers, r, length-append c.running (prepare n ∷ []));
  }
  Move-IsCounted names _ _ (skips name rest e n c r x) v = record {
    counts = v.counts;
    covers = ground (arith, v.covers, r);
  }
  Move-IsCounted names _ _ (ends i k n w c r t) v =
      let one = length-remove_at i c.running n r in
      let less = ended_counter c.counter k (record { node = n; world = w }) t in
      record {
        counts = ground (arith, v.counts, one, less);
        covers = ground (arith, v.covers, one);
      }

  -- However its goroutines take turns, the counter of a command's wait group is the number of the
  -- goroutines that run, and it has as many names as are still to visit, were refused, run or have
  -- come to their end, if that holds of the command before.
  pub Moves-IsCounted :
      (names : List String) (c d : Command)
      → Moves m tls cfg netbox_sts prepare c d
      → IsCounted names c
      → IsCounted names d
  Moves-IsCounted names _ _ (stays c) v = v
  Moves-IsCounted names _ _ (goes c d e x xs) v =
      Moves-IsCounted names d e xs (Move-IsCounted names c d x v)

  -- Where the loop of a command is over and its wait group counts nothing, so that `wg.Wait` returns,
  -- no goroutine runs, and as many names were refused by `New` or have seen their goroutine end as the
  -- command was given.
  pub waited_for_all :
      (names : List String) (c : Command)
      → Moves m tls cfg netbox_sts prepare (begun names) c
      → c.remaining ≡ []
      → c.counter ≡ 0
      → (c.running ≡ []) × (c.refusals + c.ends ≡ length names)
  unfolding begun
  waited_for_all names c ms r z =
      let v =
        Moves-IsCounted names (begun names) c ms (record { counts = refl; covers = omega arith }) in
      (no_more c.running (sym v.counts ∙ z), ground (arith, v.covers, v.counts, r, z))
    where
      no_more : (xs : List Node) → length xs ≡ 0 → xs ≡ []
      no_more [] h = refl
      no_more (x ∷ xs) h = absurd (ground (arith, h))
