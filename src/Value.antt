-- ===== src/Value.antt =====
-- The JSON-shaped values that Go's `any` holds in this program (internal/diff, internal/config).
use Prim.Native.Nat.{max}
use repositories_settings.Base.{
  ℕ, suc, ◌*◌, ◌+◌, Bool, true, false, ◌&&◌, String, ◌==◌, Option, none, some, List, [], ◌∷◌,
  nat_eq, if◌then◌else◌,
}
use repositories_settings.Base.Int.{ℤ, pos_part, neg_part}

-- A Go number of any kind. `integer` is every integer kind. `float n d` is the finite float of
-- value n / (d + 1), exactly; a NaN and the two infinities have constructors of their own.
pub data Number : Type 0 where
  integer : ℤ → Number
  float : ℤ → ℕ → Number
  nan : Number
  inf : Bool → Number

mutual
  pub data Value : Type 0 where
    null : Value
    bool : Bool → Value
    num : Number → Value
    text : String → Value
    arr : Items → Value
    obj : Fields → Value

  -- `map[string]any`, its entries in the order of their keys
  pub data Fields : Type 0 where
    end : Fields
    field : String → Value → Fields → Fields

  -- `[]any`
  pub data Items : Type 0 where
    nil : Items
    cons : Value → Items → Items

-- `v, ok := m[k]`
unfoldable pub lookup_field : String → Fields → Option Value
lookup_field k end = none
lookup_field k (field j v m) = if j == k then some v else lookup_field k m

-- The keys of a map, in order.
unfoldable pub field_keys : Fields → List String
field_keys end = []
field_keys (field k v m) = k ∷ field_keys m

-- a * (d + 1) = b * (e + 1) over the integers: how two fractions a / (e + 1) and b / (d + 1) compare.
abbrev pub cross_equal : ℤ → ℕ → ℤ → ℕ → Bool
cross_equal a e b d =
    nat_eq (pos_part a * suc d + neg_part b * suc e) (pos_part b * suc e + neg_part a * suc d)

abbrev pub bool_eq : Bool → Bool → Bool
bool_eq true b = b
bool_eq false true = false
bool_eq false false = true

-- `reflect.DeepEqual` on two numbers: the kinds must agree, and a NaN equals nothing.
unfoldable pub number_deep_equal : Number → Number → Bool
number_deep_equal (integer a) (integer b) = cross_equal a 0 b 0
number_deep_equal (float a d) (float b e) = cross_equal a d b e
number_deep_equal (inf a) (inf b) = bool_eq a b
number_deep_equal _ _ = false

-- `reflect.DeepEqual`; two maps are compared entry by entry in the order of their keys.
unfoldable mutual
  unfolding number_deep_equal

  pub deep_equal : Value → Value → Bool
  deep_equal null null = true
  deep_equal (bool a) (bool b) = bool_eq a b
  deep_equal (num a) (num b) = number_deep_equal a b
  deep_equal (text a) (text b) = a == b
  deep_equal (arr a) (arr b) = deep_equal_items a b
  deep_equal (obj a) (obj b) = deep_equal_fields a b
  deep_equal _ _ = false

  pub deep_equal_items : Items → Items → Bool
  deep_equal_items nil nil = true
  deep_equal_items (cons a as') (cons b bs) = deep_equal a b && deep_equal_items as' bs
  deep_equal_items _ _ = false

  pub deep_equal_fields : Fields → Fields → Bool
  deep_equal_fields end end = true
  deep_equal_fields (field j a as') (field k b bs) =
      j == k && (deep_equal a b && deep_equal_fields as' bs)
  deep_equal_fields _ _ = false

-- How deep maps are nested.
unfoldable mutual
  pub depth : Value → ℕ
  depth (obj m) = suc (depth_fields m)
  depth _ = 0

  pub depth_fields : Fields → ℕ
  depth_fields end = 0
  depth_fields (field k v m) = max (depth v) (depth_fields m)
