-- ===== src/Config/Validate.antt =====
-- internal/config/validate.go: the structural checks of the settings files. A check appends its issues
-- in the order of the code; the verbs of fmt, the order of a range over a map and what `url.Parse`
-- says of a text are arguments.
pub mod Names
pub mod Repository
pub mod Access
pub mod Entries
pub mod Laws
pub mod Accepted
pub mod Properties
pub mod Versions
pub mod Webhooks
use repositories_settings.Base.{
  ℕ, suc, ◌+◌, String, ◌==◌, Bool, true, false, ◌&&◌, ◌||◌, not, Option, none, some, List, [], ◌∷◌,
  ◌++◌, concat, any, is_empty, is_some, length, ltb, contains, if◌then◌else◌,
}
use repositories_settings.Base.Int.{ℤ, pos, ltb_ℤ}
use repositories_settings.Config.Policy.Inputs.{Runtime}

pub record ValidationError : Type 0 where
  pub file : String
  pub issues : List String

-- `finalize`: no issue is no error.
unfoldable pub finalize : String → List String → Option ValidationError
finalize file [] = none
finalize file (i ∷ is) = some (record { file = file; issues = i ∷ is })

-- `if b { v.add(msg) }`
abbrev pub add_if : Bool → String → List String
add_if b msg = if b then msg ∷ [] else []

unfoldable pub one_of : String → List String → Bool
unfolding contains
one_of v allowed = any (λ a. v == a) allowed

unfoldable pub is_valid_permission : String → Bool
unfolding one_of
is_valid_permission p = one_of p ("pull" ∷ "triage" ∷ "push" ∷ "maintain" ∷ "admin" ∷ [])

-- A pointer that is set to a value outside the list.
abbrev pub not_one_of : Option String → List String → Bool
not_one_of none allowed = false
not_one_of (some v) allowed = not (one_of v allowed)

-- A loop over a slice, with the index of the first entry.
abbrev pub each_at : {A : Type 0} → (ℕ → A → List String) → ℕ → List A → List String
each_at f i [] = []
each_at f i (x ∷ xs) = f i x ++ each_at f (suc i) xs

abbrev pub outside : ℤ → ℤ → Option ℤ → Bool
outside low high none = false
outside low high (some n) = ltb_ℤ n low || ltb_ℤ high n

abbrev pub at_least_one : {A : Type 0} → List A → String → List String
at_least_one xs msg = add_if (is_empty xs) msg

module _ (rt : Runtime) where
  open rt use {decimal}

  abbrev pub require_version : ℤ → List String
  require_version ver =
      add_if (not (is_one ver)) (concat ("_version: expected 1, got " ∷ decimal ver ∷ []))
    where
      is_one : ℤ → Bool
      is_one n = not (ltb_ℤ n (pos 1)) && not (ltb_ℤ (pos 1) n)

  -- `name[i]rest`
  abbrev pub entry_text : String → ℕ → String → String
  entry_text name i rest = concat (name ∷ "[" ∷ decimal (pos i) ∷ "]" ∷ rest ∷ [])
