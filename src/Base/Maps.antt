-- ===== src/Base/Maps.antt =====
-- A Go map with text keys as an association list without repeated keys, and a Go set of texts.
use Prim.Native.String.{String}
use mathlib.Core.Path.{◌≡◌, refl}
use mathlib.Core.Bool.{Bool, false, ◌||◌}
use mathlib.Core.Option.{Option, none, some}
use mathlib.Core.List.{List, [], ◌∷◌}
use native.Mathlib.Omega.{arith}
use text.Mathlib.Text.{◌==◌}
use text.Mathlib.TextEquality.{eq_iff}
use repositories_settings.Base.Tests.{if◌then◌else◌}

-- `_, ok := set[k]` and `slices.Contains`
unfoldable pub contains : List String → String → Bool
contains [] k = false
contains (x ∷ xs) k = x == k || contains xs k

-- `set[k] = struct{}{}`
unfoldable pub add : String → List String → List String
unfolding contains
add k xs = if contains xs k then xs else k ∷ xs

pub contains-add :
    (k j : String) (xs : List String) → contains (add k xs) j ≡ (k == j || contains xs j)
unfolding add
contains-add k j xs = ground (arith, eq_iff k j)

module _ {ℓ} {V : Type ℓ} where
  -- `v, ok := m[k]`
  unfoldable pub lookup : (key : String) → (entries : List (String × V)) → Option V
  lookup key [] = none
  lookup key (entry ∷ entries) = if entry.0 == key then some entry.1 else lookup key entries

  -- `delete(m, k)`
  unfoldable pub delete : (key : String) → (entries : List (String × V)) → List (String × V)
  delete key [] = []
  delete key (entry ∷ entries) =
      let rest = delete key entries in if entry.0 == key then rest else entry ∷ rest

  -- `m[k] = v`
  unfoldable pub insert : (key : String) → V → (entries : List (String × V)) → List (String × V)
  insert key value [] = (key, value) ∷ []
  insert key value (entry ∷ entries) =
      let rest = insert key value entries in
      if entry.0 == key then (key, value) ∷ entries else entry ∷ rest

  pub lookup-delete :
      (gone key : String) (entries : List (String × V))
      → lookup key (delete gone entries) ≡ (if gone == key then none else lookup key entries)
  unfolding delete lookup
  lookup-delete gone key [] = ground arith
  lookup-delete gone key (entry ∷ entries) =
      let rest = lookup-delete gone key entries in
      ground (arith, rest, eq_iff entry.0 gone, eq_iff entry.0 key, eq_iff gone key)

  pub lookup-insert :
      (new key : String) (value : V) (entries : List (String × V))
      → lookup key (insert new value entries)
        ≡ (if new == key then some value else lookup key entries)
  unfolding insert lookup
  lookup-insert new key value [] = refl
  lookup-insert new key value (entry ∷ entries) =
      let rest = lookup-insert new key value entries in
      ground (arith, rest, eq_iff entry.0 new, eq_iff entry.0 key, eq_iff new key)
