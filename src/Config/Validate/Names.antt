-- ===== src/Config/Validate/Names.antt =====
-- internal/config/validate.go: the two regular expressions that names are to match.
use repositories_settings.Base.{
  ℕ, String, Bool, false, ◌&&◌, ◌||◌, List, [], ◌∷◌, all, codes, leb, nat_eq,
}

abbrev pub is_upper : ℕ → Bool
is_upper c = leb b'A' c && leb c b'Z'

abbrev pub is_lower : ℕ → Bool
is_lower c = leb b'a' c && leb c b'z'

abbrev pub is_digit : ℕ → Bool
is_digit c = leb b'0' c && leb c b'9'

-- `first` is the class of the first code point, `rest` that of the others.
abbrev pub name_of : (ℕ → Bool) → (ℕ → Bool) → List ℕ → Bool
name_of first rest [] = false
name_of first rest (c ∷ s) = first c && all rest s

-- `^[A-Z_][A-Z0-9_]*$`
unfoldable pub is_secret_name : String → Bool
is_secret_name s =
    name_of (λ c. is_upper c || nat_eq c b'_') (λ c. is_upper c || (is_digit c || nat_eq c b'_'))
      (codes s)

abbrev pub topic_pattern : String
topic_pattern = "^[a-z0-9][a-z0-9-]*$"

unfoldable pub is_topic : String → Bool
is_topic s =
    name_of (λ c. is_lower c || is_digit c) (λ c. is_lower c || (is_digit c || nat_eq c b'-'))
      (codes s)
