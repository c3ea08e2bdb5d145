-- ===== src/Config/Policy/Report.antt =====
-- internal/config/policy.go: the shapes that the policy checks share.
use repositories_settings.Base.{
  String, Bool, false, ◌&&◌, not, Option, none, some, List, [], ◌∷◌, ◌++◌, concat, if◌then◌else◌,
}
use repositories_settings.Config.Schema.{Settings, PolicyViolation, sev_error}

-- `repoCfg != nil && repoCfg.X != nil`, with the section.
abbrev pub section_of : {A : Type 0} → (Settings → Option A) → Option Settings → Option A
section_of f none = none
section_of f (some s) = f s

-- A violation, if the test says so.
abbrev pub report_if : Bool → PolicyViolation → List PolicyViolation
report_if b v = if b then v ∷ [] else []

-- The violations of every item, in order: a `range` loop that appends.
unfoldable pub each : {A : Type 0} → (A → List PolicyViolation) → List A → List PolicyViolation
each g [] = []
each g (x ∷ xs) = g x ++ each g xs

-- `p.X.AllowRepoLevel != nil && !*p.X.AllowRepoLevel`
abbrev pub forbids : Option Bool → Bool
forbids none = false
forbids (some b) = not b

-- `flag != nil && *flag`
abbrev pub is_on : Option Bool → Bool
is_on none = false
is_on (some b) = b

abbrev pub violation : String → String → String → PolicyViolation
violation field message org_policy = record {
  field = field;
  message = message;
  severity = sev_error;
  org_policy = org_policy;
}

-- The check of two sections that are both there.
abbrev pub on_both :
    {A B : Type 0} → (A → B → List PolicyViolation) → Option A → Option B → List PolicyViolation
on_both f (some x) (some y) = f x y
on_both f _ _ = []

abbrev pub on_policy : {A : Type 0} → (A → List PolicyViolation) → Option A → List PolicyViolation
on_policy f none = []
on_policy f (some p) = f p

unfoldable pub repo_level : Option Bool → Bool → String → String → List PolicyViolation
repo_level allow present group message =
    report_if (forbids allow && present)
      (violation group message (concat (group ∷ ".allow_repo_level" ∷ [])))
