-- ===== src/Ghclient/EtagCache/Paths.antt =====
-- internal/ghclient/cache.go: which cached reads a write makes stale. Paths are lists of code points.
use repositories_settings.Base.{
  ℕ, Bool, true, false, ◌&&◌, ◌||◌, List, [], ◌∷◌, ◌++◌, nat_eq, has_prefix, if◌then◌else◌,
}

abbrev pub slash : List ℕ
slash = b'/' ∷ []

-- `strings.TrimSuffix(p, "/")`
unfoldable pub trim_slash : List ℕ → List ℕ
trim_slash [] = []
trim_slash (c ∷ []) = if nat_eq c b'/' then [] else c ∷ []
trim_slash (c ∷ d ∷ s) = c ∷ trim_slash (d ∷ s)

unfoldable pub canonical_path : List ℕ → List ℕ
unfolding trim_slash
canonical_path [] = []
canonical_path (c ∷ []) = c ∷ []
canonical_path (c ∷ d ∷ s) = trim_slash (c ∷ d ∷ s)

unfoldable pub same_path : List ℕ → List ℕ → Bool
same_path [] [] = true
same_path (a ∷ p) (b ∷ q) = nat_eq a b && same_path p q
same_path _ _ = false

unfoldable pub paths_related : List ℕ → List ℕ → Bool
unfolding same_path has_prefix
paths_related [] written = false
paths_related (c ∷ cached) written =
    same_path (c ∷ cached) written
    || (has_prefix (c ∷ cached) (written ++ slash) || has_prefix written ((c ∷ cached) ++ slash))
