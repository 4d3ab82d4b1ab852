-- ===== src/Node/Openstack/Sizes.antt =====
-- The rounding of the root device's size, and the flavor that is chosen for a node.
use ironic_temper.Base.{ℕ, ◌+◌, ◌%◌, ◌≡◌, refl, ◌≤◌, ◌<◌, ◌⊎◌, inl, inr, arith, true, List, [], ◌∷◌}
use ironic_temper.Node.Openstack.{
  Flavor, Floats, Match, Needs, rounded, calc_delta, consider, consider_all,
}
use ironic_temper.Text.{byte_len, decimal}

-- A size of three decimal digits is rounded to a multiple of one hundred that is less than ten below
-- it and at most ninety above it.
rounded_hundreds :
    (size : ℕ)
    → byte_len (decimal size) ≡ 3
    → (rounded size % 100 ≡ 0) × (rounded size ≤ size + 90) × (size < rounded size + 10)
unfolding rounded
rounded_hundreds size h = ground arith

module _ {F : Type 0} (x : Floats F) where
  -- The comparison of floating-point numbers is transitive.
  abbrev pub IsTransitive : Type 0
  IsTransitive = (a b c : F) → x.le a b ≡ true → x.le b c ≡ true → x.le a c ≡ true

  -- What is kept of a flavor that is taken.
  abbrev pub of_flavor : Needs → Flavor → Match F
  of_flavor needs f = record {
    mem = calc_delta x f.ram needs.mem;
    disk = calc_delta x f.disk needs.disk;
    cpu = calc_delta x f.vcpus needs.cpu;
    name = f.name;
    flavor = f;
  }

  -- The three deltas of the first are at most those of the second.
  abbrev pub IsCloser : Match F → Match F → Type 0
  IsCloser m m' =
      (x.le m.mem m'.mem ≡ true) × (x.le m.disk m'.disk ≡ true) × (x.le m.cpu m'.cpu ≡ true)

  abbrev pub Among : Flavor → List Flavor → Type 0
  Among f [] = ⊥
  Among f (g ∷ gs) = (f ≡ g) ⊎ Among f gs

  abbrev pub Chosen : Needs → List Flavor → Match F → Match F → Type 0
  Chosen needs fs m out = (f : Flavor) × Among f fs × (out ≡ of_flavor needs f) × IsCloser out m

  consider_cases :
      (needs : Needs) (f : Flavor) (m : Match F)
      → (consider x needs f m ≡ m)
        ⊎ ((consider x needs f m ≡ of_flavor needs f) × IsCloser (consider x needs f m) m)
  unfolding consider
  consider_cases needs f m = ground arith

  IsCloser-trans : IsTransitive → (a b c : Match F) → IsCloser a b → IsCloser b c → IsCloser a c
  IsCloser-trans t a b c h k =
      (t a.mem b.mem c.mem h.0 k.0, t a.disk b.disk c.disk h.1 k.1, t a.cpu b.cpu c.cpu h.2 k.2)

  -- Where the comparison of deltas is transitive, looking through the flavors of a page keeps the
  -- match so far, or takes a flavor of the page whose three deltas are at most those it began with.
  pub consider_all-Chosen :
      IsTransitive
      → (needs : Needs) (fs : List Flavor) (m : Match F)
      → (consider_all x needs fs m ≡ m) ⊎ Chosen needs fs m (consider_all x needs fs m)
  unfolding consider_all
  consider_all-Chosen t needs [] m = inl refl
  consider_all-Chosen t needs (f ∷ fs) m =
      elim (consider_all-Chosen t needs fs (consider x needs f m)) [
        | inl e ↦ elim (consider_cases needs f m) [
          | inl k ↦ inl (ground arith)
          | inr (k, c) ↦ inr (f, inl refl, ground arith, ground arith)
        ]
        | inr (g, among, e, closer) ↦ elim (consider_cases needs f m) [
          | inl k ↦ inr (g, inr among, e, ground arith)
          | inr (k, c) ↦ inr (
            g,
            inr among,
            e,
            IsCloser-trans t (consider_all x needs fs (consider x needs f m)) (consider x needs f m)
                m closer c,
          )
        ]
      ]
