-- ===== src/Base/Runes.antt =====
-- Text as the list of its code points, where the program walks it.
use Prim.Native.Nat.{ℕ, zero, suc, ◌+◌, ◌-◌}
use Prim.Native.Char.{code}
use Prim.Native.String.{String}
use mathlib.Core.Path.{◌≡◌, refl}
use mathlib.Core.Bool.{Bool, true, false, ◌&&◌, ◌||◌}
use mathlib.Core.List.{List, [], ◌∷◌, ◌++◌}
use native.Mathlib.Omega.{arith}
use repositories_settings.Base.Tests.{nat_eq, leb, if◌then◌else◌}
use repositories_settings.Base.Lists.{length, All}

abbrev pub codes : String → List ℕ
codes String.[] = []
codes (String.◌∷◌ c s) = code c ∷ codes s

unfoldable pub mem_rune : ℕ → List ℕ → Bool
mem_rune c [] = false
mem_rune c (d ∷ ds) = nat_eq c d || mem_rune c ds

-- `strings.HasPrefix`
unfoldable pub has_prefix : List ℕ → List ℕ → Bool
has_prefix s [] = true
has_prefix [] (p ∷ ps) = false
has_prefix (c ∷ s) (p ∷ ps) = nat_eq c p && has_prefix s ps

-- `strings.ReplaceAll` for a text `old` that is not empty; the counter skips the rest of an
-- occurrence that has been replaced.
unfoldable pub replace_from : ℕ → List ℕ → List ℕ → List ℕ → List ℕ
unfolding has_prefix
replace_from skip old new [] = []
replace_from (suc k) old new (c ∷ s) = replace_from k old new s
replace_from zero old new (c ∷ s) = elim (has_prefix (c ∷ s) old) [
  | true ↦ new ++ replace_from (length old - 1) old new s
  | false ↦ c ∷ replace_from zero old new s
]

unfoldable pub replace_all : List ℕ → List ℕ → List ℕ → List ℕ
unfolding replace_from
replace_all s old new = replace_from zero old new s

-- A text without the first code point of `old` has nothing to replace.
pub replace_all-absent :
    (o : ℕ) (old new s : List ℕ) → All (λ c. nat_eq c o ≡ false) s → replace_all s (o ∷ old) new ≡ s
unfolding replace_all
replace_all-absent o old new [] h = refl
replace_all-absent o old new (c ∷ s) h = ground (arith, replace_all-absent o old new s h.1)

-- `strings.EqualFold` against a text of ASCII letters other than k and s, whose only case variants
-- are ASCII.
unfoldable pub lower_rune : ℕ → ℕ
lower_rune c = if leb b'A' c && leb c b'Z' then c + 32 else c

unfoldable pub equal_fold : List ℕ → List ℕ → Bool
unfolding lower_rune
equal_fold [] [] = true
equal_fold (a ∷ as') (b ∷ bs) = nat_eq (lower_rune a) (lower_rune b) && equal_fold as' bs
equal_fold _ _ = false
