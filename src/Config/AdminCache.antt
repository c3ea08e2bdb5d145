-- ===== src/Config/AdminCache.antt =====
-- internal/config/admin_cache.go: which repository governs another, and how long what was read of it is
-- reused. The calls are one after the other: of a burst of calls one reads and the others wait for it.
pub mod Laws
use Prim.Native.Char.{code}
use repositories_settings.Base.{
  ℕ, ◌-◌, String, ◌==◌, Bool, true, false, ◌&&◌, ◌||◌, not, Option, none, some, List, [], ◌∷◌, any,
  concat, codes, mem_rune, length, ltb, nat_eq, count, before, after, lookup, insert, delete,
  if◌then◌else◌,
}
use repositories_settings.Config.Schema.{Repo}
use repositories_settings.Config.Suborg.{repo_string}
use repositories_settings.Config.Resolution.{AdminLayer}

-- What `LoadAdmin` answers.
pub data AdminRead : Type 0 where
  layer : AdminLayer → AdminRead
  unreadable : String → AdminRead

-- `(*AdminLayer, error)`, the layer being nil without an admin repository.
pub data Governed : Type 0 where
  ungoverned : Governed
  governed : AdminLayer → Governed
  failing : String → Governed

-- An entry that was read; a failed one is dropped before the call ends.
pub record AdminEntry : Type 0 where
  pub layer : AdminLayer
  pub fetched : ℕ

abbrev pub Entries : Type 0
Entries = List (String × AdminEntry)

-- `strings.ContainsAny(part, " \\?%#\t\r\n")`
abbrev pub has_bad_rune : String → Bool
has_bad_rune part = any (λ c. mem_rune c (codes " \\?%#\t\r\n")) (codes part)

abbrev pub is_bad_part : String → Bool
is_bad_part part = part == "" || (part == "." || (part == ".." || has_bad_rune part))

-- At most two parts; the error, if any.
unfoldable pub validate_admin_repo_ref : String → Option String
unfolding mem_rune
validate_admin_repo_ref ref =
    let parts =
      if nat_eq (count b'/' ref) 0 then ref ∷ [] else before b'/' ref ∷ after b'/' ref ∷ [] in
    if ref == ""
    then none
    else if ltb 1 (count b'/' ref)
    then some "ORG_ADMIN_REPO must be name or owner/name"
    else if any is_bad_part parts
    then some "ORG_ADMIN_REPO contains an invalid repository path segment"
    else none

-- The owner of the reference, or that of the target.
abbrev pub expand : String → Repo → Repo
expand ref target =
    if nat_eq (count b'/' ref) 0
    then record { owner = target.owner; name = ref }
    else record { owner = before b'/' ref; name = after b'/' ref }

-- `equal_fold` is `strings.EqualFold`.
module _ (equal_fold : String → String → Bool) where
  abbrev pub is_same : Repo → Repo → Bool
  is_same a b = equal_fold a.owner b.owner && equal_fold a.name b.name

  unfoldable pub admin_repo_for : String → Repo → Option Repo
  admin_repo_for ref target =
      let admin = expand ref target in
      if admin.owner == "" || admin.name == ""
      then none
      else if is_same admin target
      then none
      else some admin

  -- `load` is `LoadAdmin` at the default branch.
  module _ (load : Repo → AdminRead) (ttl : ℕ) where
    abbrev pub read : String → ℕ → Entries → AdminRead → Entries × Governed
    read key now entries (layer l) =
        (insert key (record { layer = l; fetched = now }) entries, governed l)
    read key now entries (unreadable e) = (delete key entries, failing e)

    abbrev pub reuse : Repo → ℕ → Entries → Option AdminEntry → Entries × Governed
    reuse admin now entries none = read (repo_string admin) now entries (load admin)
    reuse admin now entries (some e) =
        let again = read (repo_string admin) now entries (load admin) in
        if ltb ttl (now - e.fetched) then again else (entries, governed e.layer)

    abbrev pub for_admin : ℕ → Entries → Option Repo → Entries × Governed
    for_admin now entries none = (entries, ungoverned)
    for_admin now entries (some admin) =
        reuse admin now entries (lookup (repo_string admin) entries)

    abbrev pub for_valid : String → ℕ → Repo → Entries → Option String → Entries × Governed
    for_valid ref now target entries (some e) = (entries, failing e)
    for_valid ref now target entries none = for_admin now entries (admin_repo_for ref target)

    -- `AdminCache.For`
    unfoldable pub for_target : String → ℕ → Repo → Entries → Entries × Governed
    unfolding admin_repo_for validate_admin_repo_ref
    for_target ref now target entries =
        if ref == ""
        then (entries, ungoverned)
        else for_valid ref now target entries (validate_admin_repo_ref ref)
