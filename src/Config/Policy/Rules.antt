-- ===== src/Config/Policy/Rules.antt =====
-- When each of the shapes in which the policy check collects violations collects none.
use repositories_settings.Base.{
  if◌then◌else◌, ◌≡◌, refl, subst, ◌↔◌, inl, inr, String, ◌==◌, Bool, true, false, Option, none,
  some, List, [], ◌∷◌, ◌++◌, arith, append-eq-nil, All, contains, is_some, Bool-cases, eq_iff,
}
use repositories_settings.Config.Schema.{PolicyViolation}
use repositories_settings.Config.Policy.Report.{report_if, each, on_both, on_policy, repo_level}

-- What holds of two sections that are both there.
abbrev pub Both : {A B : Type 0} → (A → B → Type 0) → Option A → Option B → Type 0
Both P (some x) (some y) = P x y
Both P _ _ = Unit

abbrev pub On : {A : Type 0} → (A → Type 0) → Option A → Type 0
On P none = Unit
On P (some x) = P x

-- Rules for the shapes that violations are collected in.
module _ {P Q : Type 0} (xs ys : List PolicyViolation) where
  pub append-eq-nil_iff : (xs ≡ []) ↔ P → (ys ≡ []) ↔ Q → (xs ++ ys ≡ []) ↔ (P × Q)
  append-eq-nil_iff h k = (
    λ e. (h.0 ((append-eq-nil xs ys).0 e).0, k.0 ((append-eq-nil xs ys).0 e).1),
    λ pq. (append-eq-nil xs ys).1 (h.1 pq.0, k.1 pq.1),
  )

pub report_if-eq-nil : (b : Bool) (v : PolicyViolation) → (report_if b v ≡ []) ↔ (b ≡ false)
report_if-eq-nil true v = (λ e. cc, λ e. cc)
report_if-eq-nil false v = (λ e. refl, λ e. refl)

pub each-eq-nil :
    {A : Type 0} (g : A → List PolicyViolation) (P : A → Type 0)
    → ((x : A) → (g x ≡ []) ↔ P x)
    → (xs : List A) → (each g xs ≡ []) ↔ All P xs
unfolding each
each-eq-nil g P h [] = (λ e. tt, λ e. refl)
each-eq-nil g P h (x ∷ xs) = append-eq-nil_iff (g x) (each g xs) (h x) (each-eq-nil g P h xs)

pub on_both-eq-nil :
    {A B : Type 0} (f : A → B → List PolicyViolation) (P : A → B → Type 0)
    → ((x : A) (y : B) → (f x y ≡ []) ↔ P x y)
    → (o : Option A) (q : Option B) → (on_both f o q ≡ []) ↔ Both P o q
on_both-eq-nil f P h (some x) (some y) = h x y
on_both-eq-nil f P h (some x) none = (λ e. tt, λ e. refl)
on_both-eq-nil f P h none q = (λ e. tt, λ e. refl)

pub on_policy-eq-nil :
    {A : Type 0} (f : A → List PolicyViolation) (P : A → Type 0)
    → ((x : A) → (f x ≡ []) ↔ P x)
    → (o : Option A) → (on_policy f o ≡ []) ↔ On P o
on_policy-eq-nil f P h (some x) = h x
on_policy-eq-nil f P h none = (λ e. tt, λ e. refl)

-- A section that the policy reserves to the organization is not in the repository's own settings.
abbrev pub IsAllowed : {A : Type 0} → Option Bool → Option A → Type 0
IsAllowed allow section = allow ≡ some false → section ≡ none

pub repo_level-eq-nil :
    {A : Type 0} (allow : Option Bool) (section : Option A) (group message : String)
    → (repo_level allow (is_some section) group message ≡ []) ↔ IsAllowed allow section
unfolding repo_level
repo_level-eq-nil none section group message = (λ e h. cc, λ h. refl)
repo_level-eq-nil (some true) section group message = (λ e h. cc, λ h. refl)
repo_level-eq-nil (some false) none group message = (λ e h. refl, λ h. refl)
repo_level-eq-nil (some false) (some x) group message = (λ e. cc, λ h. cc (h refl))

pub All-of_contains :
    (P : String → Type 0) (xs : List String)
    → ((f : String) → contains xs f ≡ true → P f)
    → All P xs
unfolding contains
All-of_contains P [] h = tt
All-of_contains P (x ∷ xs) h =
    (h x (ground (arith, eq_iff x x)), All-of_contains P xs (λ f m. h f (ground arith)))

pub contains-All :
    (P : String → Type 0) (xs : List String) (f : String) → All P xs → contains xs f ≡ true → P f
unfolding contains
contains-All P [] f h m = cc
contains-All P (x ∷ xs) f h m = elim (Bool-cases (x == f)) [
  | inl e ↦ subst P ((eq_iff x f).0 e) h.0
  | inr e ↦ contains-All P xs f h.1 (ground arith)
]

pub if-then-eq-nil :
    {P : Type 0} (b : Bool) (xs : List PolicyViolation)
    → (xs ≡ []) ↔ P
    → ((if b then xs else []) ≡ []) ↔ (b ≡ true → P)
if-then-eq-nil true xs h = (λ e _. h.0 e, λ p. h.1 (p refl))
if-then-eq-nil false xs h = (λ e q. cc, λ p. refl)

pub if-else-eq-nil :
    {P : Type 0} (b : Bool) (xs : List PolicyViolation)
    → (xs ≡ []) ↔ P
    → ((if b then [] else xs) ≡ []) ↔ (b ≡ false → P)
if-else-eq-nil false xs h = (λ e _. h.0 e, λ p. h.1 (p refl))
if-else-eq-nil true xs h = (λ e q. cc, λ p. refl)

pub one-eq-nil : (v : PolicyViolation) → (◌≡◌ {A = List PolicyViolation} (v ∷ []) []) ↔ ⊥
one-eq-nil v = (λ e. cc, λ h. absurd h)
