-- ===== src/Prelude/Dict.antt =====
-- A Go map keyed by ids, as an association list.
use Prim.Native.Nat.{ℕ}
use mathlib.Core.Path.{◌≡◌, refl}
use mathlib.Core.Option.{Option, none, some}
use mathlib.Core.List.{List, [], ◌∷◌}
use native.Mathlib.Omega.{arith}
use expense_splitter.Prelude.Tests.{◌==◌, if◌then◌else◌}

abbrev pub Dict {ℓ} : Type ℓ → Type ℓ
Dict V = List (ℕ × V)

module _ {ℓ} {V : Type ℓ} where
  -- `v, ok := d[k]`
  unfoldable pub lookup : ℕ → Dict V → Option V
  lookup k [] = none
  lookup k ((j, v) ∷ d) = if j == k then some v else lookup k d

  -- `d[k] = v`
  unfoldable pub insert : ℕ → V → Dict V → Dict V
  insert k v [] = (k, v) ∷ []
  insert k v ((j, w) ∷ d) = if j == k then (k, v) ∷ d else (j, w) ∷ insert k v d

  -- `d[k]`, which reads a missing key as the zero value.
  unfoldable pub get_or : Dict V → ℕ → V → V
  unfolding lookup
  get_or d k zero_value = elim (lookup k d) [ none ↦ zero_value | some v ↦ v ]

  pub lookup-insert :
      (j k : ℕ) (v : V) (d : Dict V)
      → lookup j (insert k v d) ≡ (if k == j then some v else lookup j d)
  unfolding lookup insert
  lookup-insert j k v [] = refl
  lookup-insert j k v ((i, w) ∷ d) = ground (arith, lookup-insert j k v d)

  pub get_or-insert :
      (j k : ℕ) (v z : V) (d : Dict V)
      → get_or (insert k v d) j z ≡ (if k == j then v else get_or d j z)
  unfolding get_or
  get_or-insert j k v z d = ground (arith, lookup-insert j k v d)
