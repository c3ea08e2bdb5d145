-- ===== src/Diff/Compare.antt =====
-- internal/diff/diff.go: when a live value and a desired one are the same.
use repositories_settings.Base.{
  ℕ, String, ◌==◌, Bool, true, false, Option, none, some, [], ◌∷◌, concat, if◌then◌else◌,
}
use repositories_settings.Base.Int.{ℤ}
use repositories_settings.Value.{
  Number, integer, float, nan, inf, Value, null, bool, num, text, arr, obj, Items, nil, cons,
  Fields, end, field, cross_equal, deep_equal,
}

-- How encoding/json writes a finite number and a text, and how `fmt.Sprint` writes a value that is
-- not a text.
pub record Encoding : Type 0 where
  pub number_text : Number → String
  pub string_text : String → String
  pub sprint_other : Value → String

-- The exact value of a number, `rat n d` for n / (d + 1). A NaN and the infinities are numbers with
-- no value.
pub data Rat : Type 0 where
  rat : ℤ → ℕ → Rat

-- `numeric`: `none` is not a number, `some none` a number without a value.
unfoldable pub numeric : Value → Option (Option Rat)
numeric (num (integer n)) = some (some (rat n 0))
numeric (num (float n d)) = some (some (rat n d))
numeric (num x) = some none
numeric _ = none

-- `ar.Cmp(br) == 0`
abbrev pub same_value : Option Rat → Option Rat → Bool
same_value (some (rat a d)) (some (rat b e)) = cross_equal a d b e
same_value _ _ = false

unfoldable pub numbers_equal : Option (Option Rat) → Option (Option Rat) → Value → Value → Bool
numbers_equal none none a b = deep_equal a b
numbers_equal (some x) (some y) a b = same_value x y
numbers_equal _ _ a b = false

unfoldable pub values_equal : Value → Value → Bool
unfolding numeric numbers_equal
values_equal null null = true
values_equal null b = false
values_equal a null = false
values_equal a b = numbers_equal (numeric a) (numeric b) a b

infixl 5 ◌>>=◌
abbrev ◌>>=◌ : {A B : Type 0} → Option A → (A → Option B) → Option B
none >>= f = none
some a >>= f = f a

abbrev joined : String → String → String
joined s rest = if rest == "" then s else concat (s ∷ "," ∷ rest ∷ [])

module _ (enc : Encoding) where
  -- `json.Marshal`; a NaN or an infinity is an error.
  abbrev pub marshal_number : Number → Option String
  marshal_number nan = none
  marshal_number (inf b) = none
  marshal_number x = some (enc.number_text x)

  unfoldable mutual
    pub marshal : Value → Option String
    marshal null = some "null"
    marshal (bool true) = some "true"
    marshal (bool false) = some "false"
    marshal (num x) = marshal_number x
    marshal (text s) = some (enc.string_text s)
    marshal (arr xs) = do s ← marshal_items xs; some (concat ("[" ∷ s ∷ "]" ∷ []))
    marshal (obj m) = do s ← marshal_fields m; some (concat ("{" ∷ s ∷ "}" ∷ []))

    pub marshal_items : Items → Option String
    marshal_items nil = some ""
    marshal_items (cons x xs) = do s ← marshal x; rest ← marshal_items xs; some (joined s rest)

    pub marshal_fields : Fields → Option String
    marshal_fields end = some ""
    marshal_fields (field k v m) = do
      s ← marshal v
      rest ← marshal_fields m
      some (joined (concat (enc.string_text k ∷ ":" ∷ s ∷ [])) rest)

  -- The bytes, and none of them on an error, which the code ignores.
  abbrev bytes : Option String → String
  bytes none = ""
  bytes (some s) = s

  unfoldable pub slices_equal_by_json : Items → Items → Bool
  unfolding marshal
  slices_equal_by_json a b = bytes (marshal (arr a)) == bytes (marshal (arr b))

  -- `fmt.Sprint(v)`
  unfoldable pub sprint : Value → String
  sprint (text s) = s
  sprint v = enc.sprint_other v
