-- ===== src/Base/Dict.antt =====
-- A Go map with text keys: an association list, in the order in which a range statement visits it.
use ironic_temper.Base.Tests.{if◌then◌else◌}
use Prim.Native.String.{String}
use mathlib.Core.Path.{◌≡◌, refl}
use mathlib.Core.Option.{Option, none, some}
use mathlib.Core.List.{List, [], ◌∷◌}
use native.Mathlib.Omega.{arith}
use text.Mathlib.Text.{◌==◌}
use text.Mathlib.TextEquality.{eq_iff}

abbrev pub Dict {ℓ} : Type ℓ → Type ℓ
Dict V = List (String × V)

module _ {ℓ} {V : Type ℓ} where
  -- `v, ok := m[key]`
  unfoldable pub lookup : String → Dict V → Option V
  lookup key [] = none
  lookup key ((first, v) ∷ rest) =
      let further = lookup key rest in if first == key then some v else further

  -- `m[key] = value`
  unfoldable pub insert : String → V → Dict V → Dict V
  insert key value [] = (key, value) ∷ []
  insert key value ((first, v) ∷ rest) =
      let further = insert key value rest in
      if first == key then (key, value) ∷ rest else (first, v) ∷ further

  -- `delete(m, key)`; a map has a key once, so every entry of that key may go.
  unfoldable pub erase : String → Dict V → Dict V
  erase key [] = []
  erase key ((first, v) ∷ rest) =
      let further = erase key rest in if first == key then further else (first, v) ∷ further

  -- Deleting a key leaves the entries of the others.
  pub lookup-erase :
      (gone key : String) (m : Dict V)
      → lookup key (erase gone m) ≡ (if gone == key then none else lookup key m)
  unfolding lookup erase
  lookup-erase gone key [] = ground arith
  lookup-erase gone key ((first, v) ∷ rest) =
      let ih = lookup-erase gone key rest in
      ground (arith, ih, eq_iff first key, eq_iff first gone, eq_iff gone key)

  -- An entry that is written is found, and the others are as before.
  pub lookup-insert :
      (written key : String) (value : V) (m : Dict V)
      → lookup key (insert written value m) ≡ (if written == key then some value else lookup key m)
  unfolding lookup insert
  lookup-insert written key value [] = refl
  lookup-insert written key value ((first, v) ∷ rest) =
      let ih = lookup-insert written key value rest in
      ground (arith, ih, eq_iff first key, eq_iff first written, eq_iff written key)
