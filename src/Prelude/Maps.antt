-- ===== src/Prelude/Maps.antt =====
-- A Rust map from texts that is read, written and filtered by key only: the function that it is.
use Prim.Native.String.{String}
use mathlib.Core.Bool.{Bool}
use mathlib.Core.Option.{Option, none, some}
use text.Mathlib.Text.{◌==◌}
use my_template.Prelude.Tests.{if◌then◌else◌}

abbrev pub Map {ℓ} : Type ℓ → Type ℓ
Map V = String → Option V

module _ {ℓ} {V : Type ℓ} where
  abbrev pub empty : Map V
  empty k = none

  abbrev pub insert : String → V → Map V → Map V
  insert k v m j = if k == j then some v else m j

  abbrev pub remove : String → Map V → Map V
  remove k m j = if k == j then none else m j

  abbrev pub keep_if : (V → Bool) → Option V → Option V
  keep_if p none = none
  keep_if p (some v) = if p v then some v else none

  -- `HashMap::retain`
  abbrev pub retain : (V → Bool) → Map V → Map V
  retain p m j = keep_if p (m j)
