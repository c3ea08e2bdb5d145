-- ===== src/Base/Sort.antt =====
-- `sort.Strings`: insertion into an ordered list, by code points (which is the order of the bytes).
use repositories_settings.Base.Tests.{nat_eq, ltb, if◌then◌else◌}
use repositories_settings.Base.Runes.{codes}
use repositories_settings.Base.Maps.{contains}
use Prim.Native.Nat.{ℕ}
use Prim.Native.String.{String}
use mathlib.Core.Path.{◌≡◌, refl}
use mathlib.Core.Bool.{Bool, true, false, ◌&&◌, ◌||◌}
use mathlib.Core.List.{List, [], ◌∷◌}
use native.Mathlib.Omega.{arith}
use text.Mathlib.Text.{◌==◌}

abbrev runes_lt : List ℕ → List ℕ → Bool
runes_lt [] [] = false
runes_lt [] (b ∷ bs) = true
runes_lt (a ∷ as') [] = false
runes_lt (a ∷ as') (b ∷ bs) = ltb a b || nat_eq a b && runes_lt as' bs

unfoldable pub string_lt : String → String → Bool
string_lt s t = runes_lt (codes s) (codes t)

unfoldable pub insert_sorted : String → List String → List String
insert_sorted k [] = k ∷ []
insert_sorted k (x ∷ xs) = if string_lt x k then x ∷ insert_sorted k xs else k ∷ x ∷ xs

unfoldable pub sort_strings : List String → List String
unfolding insert_sorted
sort_strings [] = []
sort_strings (x ∷ xs) = insert_sorted x (sort_strings xs)

contains-insert_sorted :
    (k j : String) (xs : List String) → contains (insert_sorted k xs) j ≡ (k == j || contains xs j)
unfolding insert_sorted contains
contains-insert_sorted k j [] = refl
contains-insert_sorted k j (x ∷ xs) = ground (arith, contains-insert_sorted k j xs)

pub contains-sort_strings :
    (j : String) (xs : List String) → contains (sort_strings xs) j ≡ contains xs j
unfolding sort_strings contains
contains-sort_strings j [] = refl
contains-sort_strings j (x ∷ xs) =
    ground (arith, contains-insert_sorted x j (sort_strings xs), contains-sort_strings j xs)
