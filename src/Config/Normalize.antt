-- ===== src/Config/Normalize.antt =====
-- internal/config/normalize.go: the completion of the parsed settings to the document that is
-- compared with GitHub. A nil slice that an engaged container holds becomes an empty one, and an
-- absent Boolean of a branch protection becomes false.
use repositories_settings.Base.{
  ◌≡◌, refl, ap, Bool, false, Option, none, some, List, [], ◌∷◌, map, arith,
}
use repositories_settings.Config.Schema.{
  Slice, Ruleset, RulesetCondition, RulesetsConfig, RequiredStatusChecks, BranchRestrictions,
  BranchProtection, BranchesConfig, Settings,
}

abbrev or_false : Option Bool → Option Bool
or_false none = some false
or_false (some b) = some b

abbrev or_empty : {A : Type 0} → Slice A → Slice A
or_empty none = some []
or_empty (some xs) = some xs

abbrev map_option : {A : Type 0} → (A → A) → Option A → Option A
map_option f none = none
map_option f (some a) = some (f a)

abbrev map_slice : {A : Type 0} → (A → A) → Slice A → Slice A
map_slice f none = none
map_slice f (some xs) = some (map f xs)

unfoldable pub normalize_condition : RulesetCondition → RulesetCondition
normalize_condition c = record { include = or_empty c.include; exclude = or_empty c.exclude }

unfoldable pub normalize_ruleset : Ruleset → Ruleset
unfolding normalize_condition
normalize_ruleset r = record r {
  rules = or_empty r.rules;
  conditions = map_option normalize_condition r.conditions;
}

unfoldable pub normalize_checks : RequiredStatusChecks → RequiredStatusChecks
normalize_checks c = record { strict = or_false c.strict; contexts = or_empty c.contexts }

unfoldable pub normalize_restrictions : BranchRestrictions → BranchRestrictions
normalize_restrictions r = record r { users = or_empty r.users; teams = or_empty r.teams }

unfoldable pub normalize_branch : BranchProtection → BranchProtection
unfolding normalize_checks normalize_restrictions
normalize_branch b = record b {
  enforce_admins = or_false b.enforce_admins;
  required_linear_history = or_false b.required_linear_history;
  allow_force_pushes = or_false b.allow_force_pushes;
  allow_deletions = or_false b.allow_deletions;
  required_conversation_resolution = or_false b.required_conversation_resolution;
  block_creations = or_false b.block_creations;
  lock_branch = or_false b.lock_branch;
  allow_fork_syncing = or_false b.allow_fork_syncing;
  required_status_checks = map_option normalize_checks b.required_status_checks;
  restrictions = map_option normalize_restrictions b.restrictions;
}

unfoldable pub normalize_rulesets : RulesetsConfig → RulesetsConfig
unfolding normalize_ruleset
normalize_rulesets c = record { rulesets = map_slice normalize_ruleset c.rulesets }

unfoldable pub normalize_branches : BranchesConfig → BranchesConfig
unfolding normalize_branch
normalize_branches c = record { branches = map_slice normalize_branch c.branches }

-- `Settings.Normalize`; a nil receiver is left to the callers, which pass none.
unfoldable pub normalize : Settings → Settings
unfolding normalize_rulesets normalize_branches
normalize s = record s {
  rulesets = map_option normalize_rulesets s.rulesets;
  branches = map_option normalize_branches s.branches;
}

or_false_idem : (o : Option Bool) → or_false (or_false o) ≡ or_false o
or_false_idem o = ground arith

or_empty_idem : {A : Type 0} (o : Slice A) → or_empty (or_empty o) ≡ or_empty o
or_empty_idem none = refl
or_empty_idem (some xs) = refl

map_option_idem :
    {A : Type 0} (f : A → A)
    → ((a : A) → f (f a) ≡ f a)
    → (o : Option A) → map_option f (map_option f o) ≡ map_option f o
map_option_idem f h none = refl
map_option_idem f h (some a) = ap some (h a)

map_idem :
    {A : Type 0} (f : A → A)
    → ((a : A) → f (f a) ≡ f a)
    → (xs : List A) → map f (map f xs) ≡ map f xs
map_idem f h [] = refl
map_idem f h (x ∷ xs) = cc (h x, map_idem f h xs)

map_slice_idem :
    {A : Type 0} (f : A → A)
    → ((a : A) → f (f a) ≡ f a)
    → (o : Slice A) → map_slice f (map_slice f o) ≡ map_slice f o
map_slice_idem f h none = refl
map_slice_idem f h (some xs) = ap some (map_idem f h xs)

ruleset_idem : (r : Ruleset) → normalize_ruleset (normalize_ruleset r) ≡ normalize_ruleset r
unfolding normalize_ruleset
ruleset_idem r = simp (or_empty_idem, map_option_idem normalize_condition (λ c. simp or_empty_idem))

branch_idem : (b : BranchProtection) → normalize_branch (normalize_branch b) ≡ normalize_branch b
unfolding normalize_branch
branch_idem b = simp (
  or_false_idem,
  map_option_idem normalize_checks (λ c. simp (or_false_idem, or_empty_idem)),
  map_option_idem normalize_restrictions (λ c. simp or_empty_idem),
)

-- Completing a second time changes nothing.
pub normalize_idem : (s : Settings) → normalize (normalize s) ≡ normalize s
unfolding normalize
normalize_idem s = simp (
  map_option_idem normalize_rulesets (λ c. simp (map_slice_idem normalize_ruleset ruleset_idem)),
  map_option_idem normalize_branches (λ c. simp (map_slice_idem normalize_branch branch_idem)),
)
