-- ===== src/Config/Policy/Inputs.antt =====
-- internal/config/policy.go: what the policy check reads of the settings (the ranks of permissions,
-- the fields that a file sets, numbers), and the parts of Go's runtime that it uses.
use repositories_settings.Base.{
  ℕ, zero, suc, ◌/◌, String, ◌==◌, ◌≡◌, Bool, false, not, ◌&&◌, Option, none, some, List, [], ◌∷◌,
  is_some, contains, if◌then◌else◌,
}
use repositories_settings.Base.Int.{ℤ, pos, negsuc, ltb_ℤ}
use repositories_settings.Value.{Value, num, integer, float, nan, inf}
use repositories_settings.Config.Schema.{RepoConfig, SecurityConfig, TeamPermission}

-- What the code takes from Go's runtime and library: the `%q` and `%d` verbs of fmt, the regexp
-- engine (`regexp.MustCompile` of a source and `MatchString` of a text, `none` where MustCompile
-- panics), and the order in which `range` visits the keys of a map, of which only this is
-- specified: it visits the keys that are there.
pub record Runtime : Type 0 where
  pub quote : String → String
  pub decimal : ℤ → String
  pub regexp_match : List ℕ → List ℕ → Option Bool
  pub range : List String → List String
  pub contains-range : (xs : List String) (k : String) → contains (range xs) k ≡ contains xs k

-- `permRank[p]`; a text that is no key reads as 0.
unfoldable pub perm_rank : TeamPermission → ℕ
perm_rank p =
    if p == "pull"
    then 0
    else if p == "triage"
    then 1
    else if p == "push"
    then 2
    else if p == "maintain"
    then 3
    else if p == "admin"
    then 4
    else 0

-- The pointer fields of the record by their YAML names, with what each being set comes to.
abbrev pub repo_fields : RepoConfig → List (String × Bool)
repo_fields r =
    ("description", is_some r.description)
    ∷ ("homepage", is_some r.homepage)
    ∷ ("private", is_some r.private)
    ∷ ("visibility", is_some r.visibility)
    ∷ ("has_issues", is_some r.has_issues)
    ∷ ("has_projects", is_some r.has_projects)
    ∷ ("has_wiki", is_some r.has_wiki)
    ∷ ("has_discussions", is_some r.has_discussions)
    ∷ ("is_template", is_some r.is_template)
    ∷ ("allow_squash_merge", is_some r.allow_squash_merge)
    ∷ ("allow_merge_commit", is_some r.allow_merge_commit)
    ∷ ("allow_rebase_merge", is_some r.allow_rebase_merge)
    ∷ ("allow_auto_merge", is_some r.allow_auto_merge)
    ∷ ("delete_branch_on_merge", is_some r.delete_branch_on_merge)
    ∷ ("allow_update_branch", is_some r.allow_update_branch)
    ∷ ("squash_merge_commit_title", is_some r.squash_merge_commit_title)
    ∷ ("squash_merge_commit_message", is_some r.squash_merge_commit_message)
    ∷ ("merge_commit_title", is_some r.merge_commit_title)
    ∷ ("merge_commit_message", is_some r.merge_commit_message)
    ∷ ("archived", is_some r.archived)
    ∷ ("web_commit_signoff_required", is_some r.web_commit_signoff_required)
    ∷ []

abbrev pub is_false : Option Bool → Bool
is_false none = false
is_false (some b) = not b

abbrev pub security_fields : SecurityConfig → List (String × Bool)
security_fields s =
    ("vulnerability_alerts", is_false s.vulnerability_alerts)
    ∷ ("automated_security_fixes", is_false s.automated_security_fixes)
    ∷ ("secret_scanning", is_false s.secret_scanning)
    ∷ ("secret_scanning_push_protection", is_false s.secret_scanning_push_protection)
    ∷ ("private_vulnerability_reporting", is_false s.private_vulnerability_reporting)
    ∷ []

abbrev pub marked : List (String × Bool) → List String
marked [] = []
marked ((name, b) ∷ fs) = let rest = marked fs in if b then name ∷ rest else rest

-- The fields that are set.
unfoldable pub repo_field_set : RepoConfig → List String
repo_field_set r = marked (repo_fields r)

-- The fields that are set to false.
unfoldable pub bool_fields_false : SecurityConfig → List String
bool_fields_false s = marked (security_fields s)

-- The fraction is dropped.
abbrev pub drop_fraction : ℤ → ℕ → ℤ
drop_fraction (pos n) d = pos (n / suc d)
drop_fraction (negsuc n) d = elim (suc n / suc d) [ zero ↦ pos 0 | suc k ↦ negsuc k ]

abbrev pub fits_int64 : ℤ → Bool
fits_int64 n = ltb_ℤ n (pos 9223372036854775808) && not (ltb_ℤ n (negsuc 9223372036854775807))

-- What a float out of the range of an int64 converts to, as on amd64: the least int64.
abbrev pub least_int64 : ℤ
least_int64 = negsuc 9223372036854775807

-- `int(f)` of a finite float.
abbrev pub truncate : ℤ → ℕ → ℤ
truncate n d = let whole = drop_fraction n d in if fits_int64 whole then whole else least_int64

-- An integer too large for an int64 is a uint64, which is no case of the switch.
abbrev pub in_int64 : ℤ → Option ℤ
in_int64 n = if fits_int64 n then some n else none

-- A NaN and an infinity are out of range as well.
unfoldable pub read_int : Option Value → Option ℤ
read_int (some (num (integer n))) = in_int64 n
read_int (some (num (float n d))) = some (truncate n d)
read_int (some (num nan)) = some least_int64
read_int (some (num (inf b))) = some least_int64
read_int _ = none
