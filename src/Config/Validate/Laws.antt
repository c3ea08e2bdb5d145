-- ===== src/Config/Validate/Laws.antt =====
-- internal/config/validate.go: the files that the checks accept.
use repositories_settings.Base.{
  ℕ, suc, ◌≤◌, String, ◌==◌, ◌≡◌, ◌≢◌, ◌↔◌, refl, ap, Bool, true, false, ◌&&◌, not, Option, none,
  some, List, [], ◌∷◌, ◌++◌, arith, eq_iff, ==-of_ne, All, append-eq-nil, is_empty, ltb,
}
use repositories_settings.Base.Int.{ℤ, pos, negsuc, ltb_ℤ, pos_part, neg_part}
use repositories_settings.Config.Policy.Inputs.{Runtime}
use repositories_settings.Config.Validate.{
  finalize, add_if, each_at, outside, require_version, at_least_one,
}

pub finalize-eq-none :
    (file : String) (issues : List String) → (finalize file issues ≡ none) ↔ (issues ≡ [])
unfolding finalize
finalize-eq-none file [] = (λ e. refl, λ e. refl)
finalize-eq-none file (i ∷ is) = (λ e. absurd (ground (arith, e)), λ e. absurd (ground (arith, e)))

pub add_if-eq-nil : (b : Bool) (msg : String) → (add_if b msg ≡ []) ↔ (b ≡ false)
add_if-eq-nil true msg = (λ e. absurd (ground (arith, e)), λ e. absurd (ground (arith, e)))
add_if-eq-nil false msg = (λ e. refl, λ e. refl)

pub each_at-eq-nil :
    {A : Type 0} (f : ℕ → A → List String) (P : A → Type 0)
    → ((i : ℕ) (x : A) → (f i x ≡ []) ↔ P x)
    → (i : ℕ) (xs : List A) → (each_at f i xs ≡ []) ↔ All P xs
each_at-eq-nil f P h i [] = (λ e. tt, λ p. refl)
each_at-eq-nil f P h i (x ∷ xs) =
    let rest = each_at-eq-nil f P h (suc i) xs in
    let both = append-eq-nil (f i x) (each_at f (suc i) xs) in
    (λ e. ((h i x).0 (both.0 e).0, rest.0 (both.0 e).1), λ p. both.1 ((h i x).1 p.0, rest.1 p.1))

-- Two groups of issues, and what it takes that each is empty.
pub both-eq-nil :
    {P Q : Type 0} (xs ys : List String)
    → ((xs ≡ []) ↔ P)
    → ((ys ≡ []) ↔ Q)
    → (xs ++ ys ≡ []) ↔ (P × Q)
both-eq-nil xs ys f g =
    let both = append-eq-nil xs ys in
    (λ e. (f.0 (both.0 e).0, g.0 (both.0 e).1), λ p. both.1 (f.1 p.0, g.1 p.1))

-- The test that `ver != 1` comes to.
abbrev differs : ℤ → Bool
differs ver = not (not (ltb_ℤ ver (pos 1)) && not (ltb_ℤ (pos 1) ver))

differs-eq-false : (ver : ℤ) → (differs ver ≡ false) ↔ (ver ≡ pos 1)
differs-eq-false (pos n) = (
  λ e. let one : n ≡ 1 = ground arith in ap pos one,
  λ e. let one : n ≡ 1 = ap pos_part e in ground (arith, one),
)
differs-eq-false (negsuc n) = (
  λ e. absurd (ground arith),
  λ e. let none_left : suc n ≡ 0 = ap neg_part e in absurd (omega (arith, none_left)),
)

pub require_version-eq-nil :
    (rt : Runtime) (ver : ℤ) → (require_version rt ver ≡ []) ↔ (ver ≡ pos 1)
require_version-eq-nil rt ver =
    let test = add_if-eq-nil (differs ver) _ in
    let is_one = differs-eq-false ver in (λ e. is_one.0 (test.0 e), λ e. test.1 (is_one.1 e))

abbrev pub IsGiven : {A : Type 0} → List A → Type 0
IsGiven xs = xs ≢ []

pub at_least_one-eq-nil :
    {A : Type 0} (xs : List A) (msg : String) → (at_least_one xs msg ≡ []) ↔ IsGiven xs
at_least_one-eq-nil [] msg = (λ e. absurd (ground (arith, e)), λ h. absurd (h refl))
at_least_one-eq-nil (x ∷ xs) msg = (λ e f. ground (arith, f), λ h. refl)

pub add_if_iff :
    {P : Type 0} (b : Bool) (msg : String) → ((b ≡ false) ↔ P) → (add_if b msg ≡ []) ↔ P
add_if_iff b msg h = let test = add_if-eq-nil b msg in (λ e. h.0 (test.0 e), λ p. test.1 (h.1 p))

pub is_empty_text-eq-false : (s : String) → ((s == "") ≡ false) ↔ (s ≢ "")
is_empty_text-eq-false s = (λ e eq. ground (arith, e, (eq_iff s "").1 eq), ==-of_ne s "")

-- A number that is not set, or lies between zero and the other.
abbrev pub Within : ℕ → Option ℤ → Type 0
Within high none = Unit
Within high (some (pos n)) = n ≤ high
Within high (some (negsuc n)) = ⊥

pub outside-eq-false :
    (high : ℕ) (o : Option ℤ) → (outside (pos 0) (pos high) o ≡ false) ↔ Within high o
outside-eq-false high none = (λ e. tt, λ p. refl)
outside-eq-false high (some (pos n)) = (λ e. ground arith, λ p. ground arith)
outside-eq-false high (some (negsuc n)) = (λ e. absurd (ground arith), λ p. elim p [ ])

pub not-eq-false : (b : Bool) → (not b ≡ false) ↔ (b ≡ true)
not-eq-false b = (λ e. ground arith, λ e. ground arith)

pub is_empty-eq-true : {A : Type 0} (xs : List A) → (not (is_empty xs) ≡ false) ↔ (xs ≡ [])
is_empty-eq-true [] = (λ e. refl, λ e. refl)
is_empty-eq-true (x ∷ xs) = (λ e. absurd (ground arith), λ e. absurd (ground (arith, e)))

pub ltb-eq-false : (m n : ℕ) → (ltb m n ≡ false) ↔ (n ≤ m)
ltb-eq-false m n = (λ e. ground arith, λ e. ground arith)
