-- ===== src/Config/Org.antt =====
-- internal/config/org.go: the admin layer of an organization, read from its admin repository. The strict
-- decoder is an argument, and so is the order in which the files of a directory arrive.
pub mod Names
use Prim.Native.Char.{code}
use repositories_settings.Base.{
  ℕ, suc, ◌+◌, String, ◌==◌, Bool, true, false, ◌&&◌, ◌||◌, not, Option, none, some, List, [], ◌∷◌,
  ◌++◌, concat, contains, nat_eq, count, if◌then◌else◌,
}
use repositories_settings.Base.Int.{ℤ, pos}
use repositories_settings.Config.Schema.{Slice, items, Settings}
use repositories_settings.Config.Admin.{AdminPolicy}
use repositories_settings.Config.Suborg.{SuborgMatch}
use repositories_settings.Config.Resolution.{Suborg, AdminLayer, zero_policy}
use repositories_settings.Config.Policy.Inputs.{Runtime}
use repositories_settings.Config.Validate.{ValidationError}
use repositories_settings.Config.Loader.{
  Decoder, Fetched, missing, failed, content, LoadError, Loaded, loaded, load_failed,
  load_settings_dir,
}

abbrev pub settings_dir : String
settings_dir = ".github/settings/"

abbrev pub policy_path : String
policy_path = ".github/settings/policy.yml"

abbrev pub suborg_index_path : String
suborg_index_path = ".github/settings/suborgs.yml"

abbrev pub suborg_dir : String → String
suborg_dir name = concat (".github/settings/suborgs/" ∷ name ∷ "/" ∷ [])

pub record PolicyFile : Type 0 where
  pub version : ℤ
  pub policy : AdminPolicy

pub record SuborgEntry : Type 0 where
  pub name : String
  pub match : SuborgMatch

pub record SuborgIndexFile : Type 0 where
  pub version : ℤ
  pub suborgs : Slice SuborgEntry

-- `yamlstrict.Decode`, with the text of the error, that of an empty file included.
pub data Strict (F : Type 0) : Type 0 where
  rejected : String → Strict F
  accepted : F → Strict F

pub record OrgDecoder : Type 0 where
  pub policy_file : String → Strict PolicyFile
  pub index_file : String → Strict SuborgIndexFile

pub data OrgError : Type 0 where
  no_access : String → OrgError
  in_settings : List LoadError → OrgError
  in_file : String → String → OrgError
  not_valid : ValidationError → OrgError
  in_suborg : String → List LoadError → OrgError

-- `(T, error)`
pub data Read (A : Type 0) : Type 0 where
  done : A → Read A
  stopped : OrgError → Read A

abbrev pub not_valid_at : {A : Type 0} → String → List String → Read A
not_valid_at file issues = stopped (not_valid (record { file = file; issues = issues }))

-- `path.Base`
abbrev pub strip_slashes : String → String
strip_slashes String.[] = ""
strip_slashes (String.◌∷◌ c s) =
    let rest = strip_slashes s in
    if nat_eq (code c) b'/' && rest == "" then "" else String.◌∷◌ c rest

abbrev pub last_part : String → String
last_part String.[] = ""
last_part (String.◌∷◌ c s) =
    let rest = last_part s in
    if nat_eq (count b'/' (String.◌∷◌ c s)) 0 then String.◌∷◌ c s else rest

abbrev pub base_of : String → String
base_of part = if part == "" then "/" else part

unfoldable pub path_base : String → String
path_base s = if s == "" then "." else base_of (last_part (strip_slashes s))

abbrev pub is_segment : String → Bool
is_segment name = name == path_base name && (not (name == ".") && not (name == ".."))

-- `get_file` is `GetFile` at a path of the admin repository.
module _ (rt : Runtime) (url_scheme : String → Option String) (d : Decoder) (od : OrgDecoder)
    (trim_space : String → String) (order : String → List String)
    (get_file : String → Fetched) where
  open rt use {quote, decimal}

  abbrev pub load_dir : String → Loaded
  load_dir dir =
      load_settings_dir rt url_scheme d (λ name. get_file (concat (dir ∷ name ∷ []))) (order dir)

  abbrev pub policy_of : Fetched → Read AdminPolicy
  policy_of missing = done zero_policy
  policy_of (failed err) = stopped (in_file policy_path err)
  policy_of (content raw) = elim (od.policy_file raw) [
    | rejected err ↦ not_valid_at policy_path (err ∷ [])
    | accepted f ↦ done f.policy
  ]

  unfoldable pub load_admin_policy : Read AdminPolicy
  load_admin_policy = policy_of (get_file policy_path)

  -- What is wrong with the name of an entry, if anything.
  unfoldable pub name_issue : ℕ → String → String → List String → Option String
  unfolding path_base contains
  name_issue i raw name seen =
      let at = concat ("suborgs[" ∷ decimal (pos i) ∷ "]: " ∷ []) in
      if name == ""
      then some (concat (at ∷ "name is required" ∷ []))
      else if not (is_segment name)
      then some (concat (at ∷ "name " ∷ quote raw ∷ " must be a single path segment" ∷ []))
      else if contains seen name
      then some (concat (at ∷ "duplicate name " ∷ quote name ∷ []))
      else none

  -- The issues of the entries, and the suborgs that were read.
  abbrev pub Scanned : Type 0
  Scanned = List String × List Suborg

  abbrev pub with_issue : String → Read Scanned → Read Scanned
  with_issue issue (stopped e) = stopped e
  with_issue issue (done r) = done (issue ∷ r.0, r.1)

  abbrev pub with_suborg : SuborgEntry → String → Settings → Read Scanned → Read Scanned
  with_suborg entry name s (stopped e) = stopped e
  with_suborg entry name s (done r) =
      done (r.0, record { name = name; match = entry.match; settings = some s } ∷ r.1)

  -- A directory that does not load ends the loop.
  abbrev pub with_loaded : SuborgEntry → String → Loaded → Read Scanned → Read Scanned
  with_loaded entry name (load_failed errs) rest = stopped (in_suborg name errs)
  with_loaded entry name (loaded s) rest = with_suborg entry name s rest

  -- The rest of the loop after an entry that is passed over, and after one that counts.
  abbrev pub with_name :
      SuborgEntry → String → Option String → Read Scanned → Read Scanned → Read Scanned
  with_name entry name (some issue) skip next = with_issue issue skip
  with_name entry name none skip next = with_loaded entry name (load_dir (suborg_dir name)) next

  unfoldable pub scan : ℕ → List SuborgEntry → List String → Read Scanned
  unfolding name_issue
  scan i [] seen = done ([], [])
  scan i (entry ∷ entries) seen =
      let name = trim_space entry.name in
      let skip = scan (suc i) entries seen in
      let next = scan (suc i) entries (name ∷ seen) in
      with_name entry name (name_issue i entry.name name seen) skip next

  abbrev pub suborgs_of : Read Scanned → Read (List Suborg)
  suborgs_of (stopped e) = stopped e
  suborgs_of (done ([], out)) = done out
  suborgs_of (done (i ∷ is, out)) = not_valid_at suborg_index_path (i ∷ is)

  abbrev pub index_strict : Strict SuborgIndexFile → Read (List Suborg)
  index_strict (rejected err) = not_valid_at suborg_index_path (err ∷ [])
  index_strict (accepted index) = suborgs_of (scan 0 (items index.suborgs) [])

  abbrev pub index_of : Fetched → Read (List Suborg)
  index_of missing = done []
  index_of (failed err) = stopped (in_file suborg_index_path err)
  index_of (content raw) = index_strict (od.index_file raw)

  unfoldable pub load_suborgs : Read (List Suborg)
  unfolding scan
  load_suborgs = index_of (get_file suborg_index_path)

  abbrev pub with_suborgs : Settings → AdminPolicy → Read (List Suborg) → Read AdminLayer
  with_suborgs s policy (stopped e) = stopped e
  with_suborgs s policy (done suborgs) =
      done (record { settings = some s; policy = policy; suborgs = suborgs })

  abbrev pub with_policy : Settings → Read AdminPolicy → Read AdminLayer
  with_policy s (stopped e) = stopped e
  with_policy s (done policy) = with_suborgs s policy load_suborgs

  abbrev pub with_settings : Loaded → Read AdminLayer
  with_settings (load_failed errs) = stopped (in_settings errs)
  with_settings (loaded s) = with_policy s load_admin_policy

  -- The argument is the answer of `CheckRepository`: an error, or none.
  unfoldable pub load_admin : Option String → Read AdminLayer
  load_admin (some err) = stopped (no_access err)
  load_admin none = with_settings (load_dir settings_dir)
