-- ===== src/Oidc/Subject.antt =====
-- internal/oidc/github.go: the parts of a repository's name and of the subject of a token.
use Prim.Native.Char.{code}
use Prim.Native.String.{slice, len}
use package.text.Mathlib.Text.{starts_with}
use repositories_settings.Base.{
  ℕ, String, ◌==◌, Bool, true, false, ◌&&◌, ◌||◌, not, Option, none, some, List, [], ◌∷◌, leb,
  nat_eq, count, before, after, if◌then◌else◌,
}

-- A positive decimal number.
abbrev pub all_digits : String → Bool
all_digits String.[] = true
all_digits (String.◌∷◌ c s) = (leb b'0' (code c) && leb (code c) b'9') && all_digits s

abbrev pub any_nonzero : String → Bool
any_nonzero String.[] = false
any_nonzero (String.◌∷◌ c s) = not (nat_eq (code c) b'0') || any_nonzero s

unfoldable pub numeric_id : String → Bool
numeric_id id = all_digits id && any_nonzero id

-- The owner and the name, where there is exactly one slash and neither is empty.
unfoldable pub split_repository : String → Option (String × String)
split_repository repository =
    let owner = before b'/' repository in
    let name = after b'/' repository in
    if not (nat_eq (count b'/' repository) 1) || (owner == "" || name == "")
    then none
    else some (owner, name)

pub record SubjectRepo : Type 0 where
  pub owner : String
  pub owner_id : String
  pub name : String
  pub repo_id : String
  pub immutable : Bool

abbrev pub split_parts : Option (String × String) → Option SubjectRepo
split_parts none = none
split_parts (some (owner_part, name_part)) =
    let owner = before b'@' owner_part in
    let owner_id = after b'@' owner_part in
    let name = before b'@' name_part in
    let repo_id = after b'@' name_part in
    if nat_eq (count b'@' owner_part) 0 && nat_eq (count b'@' name_part) 0
    then some (record {
      owner = owner_part;
      owner_id = "";
      name = name_part;
      repo_id = "";
      immutable = false;
    })
    else if not (nat_eq (count b'@' owner_part) 1) || not (nat_eq (count b'@' name_part) 1)
    then none
    else if (owner == "" || name == "") || (not (numeric_id owner_id) || not (numeric_id repo_id))
    then none
    else some (record {
      owner = owner;
      owner_id = owner_id;
      name = name;
      repo_id = repo_id;
      immutable = true;
    })

-- "owner/name", or "owner@id/name@id".
unfoldable pub split_subject_repo : String → Option SubjectRepo
unfolding split_repository numeric_id
split_subject_repo segment = split_parts (split_repository segment)

-- What stands between a place of the subject and the next colon.
unfoldable pub segment_value : String → ℕ → String
segment_value subject start = before b':' (slice subject start (len subject))

-- The values after each ":repo:", whether or not two of them overlap.
abbrev pub inner_segments : String → List String
inner_segments String.[] = []
inner_segments (String.◌∷◌ c s) =
    let rest = inner_segments s in
    let here = String.◌∷◌ c s in
    if starts_with here ":repo:" then segment_value here (len ":repo:") ∷ rest else rest

unfoldable pub subject_repo_segments : String → List String
unfolding segment_value
subject_repo_segments subject =
    let inner = inner_segments subject in
    if starts_with subject "repo:" then segment_value subject (len "repo:") ∷ inner else inner
