-- ===== src/Base/Cut.antt =====
-- `strings.Count` and `strings.Cut` for a separator of one code point.
use Prim.Native.Nat.{ℕ, ◌+◌}
use Prim.Native.Char.{code}
use Prim.Native.String.{String}
use repositories_settings.Base.Tests.{nat_eq, if◌then◌else◌}

-- `strings.Count(s, sep)` for a separator of one code point.
abbrev pub count : ℕ → String → ℕ
count sep String.[] = 0
count sep (String.◌∷◌ c s) = if nat_eq (code c) sep then count sep s + 1 else count sep s

-- `strings.Cut`: what comes before the first separator, and what after it; all, and nothing.
abbrev pub before : ℕ → String → String
before sep String.[] = ""
before sep (String.◌∷◌ c s) =
    let rest = before sep s in if nat_eq (code c) sep then "" else String.◌∷◌ c rest

abbrev pub after : ℕ → String → String
after sep String.[] = ""
after sep (String.◌∷◌ c s) = let rest = after sep s in if nat_eq (code c) sep then s else rest
