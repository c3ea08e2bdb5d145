-- ===== src/Config/AdminCache/Laws.antt =====
-- internal/config/admin_cache.go: no repository governs itself, and what the cache holds after a read.
use repositories_settings.Base.{
  ℕ, ◌-◌, ◌+◌, ◌≤◌, String, ◌==◌, ◌≡◌, refl, ap, ◌∙◌, subst, Bool, false, ◌||◌, Option, none, some,
  arith, eq_refl, ltb, lookup, lookup-insert, lookup-delete, Bool-cases, inl, inr, if◌then◌else◌,
}
use repositories_settings.Config.Schema.{Repo}
use repositories_settings.Config.Suborg.{repo_string}
use repositories_settings.Config.Resolution.{AdminLayer}
use repositories_settings.Config.AdminCache.{
  AdminRead, layer, unreadable, Governed, ungoverned, governed, failing, AdminEntry, Entries,
  expand, is_same, validate_admin_repo_ref, admin_repo_for, read, reuse, for_admin, for_valid,
  for_target,
}

module _ (equal_fold : String → String → Bool) where
  -- The repository that governs another has an owner and a name, and is never that other one, in
  -- whatever case its reference is written.
  pub admin_repo_for-other :
      (ref : String) (target admin : Repo)
      → admin_repo_for equal_fold ref target ≡ some admin
      → ((admin.owner == "") ≡ false)
        × (((admin.name == "") ≡ false) × (is_same equal_fold admin target ≡ false))
  unfolding admin_repo_for
  admin_repo_for-other ref target admin h = at_repo (expand ref target) h
    where
      at_repo :
          (a : Repo)
          → (if a.owner == "" || a.name == ""
              then none
              else if is_same equal_fold a target
              then none
              else some a)
            ≡ some admin
          → ((admin.owner == "") ≡ false)
            × (((admin.name == "") ≡ false) × (is_same equal_fold admin target ≡ false))
      at_repo a k = elim (Bool-cases (a.owner == "" || a.name == "")) [
        | inl e ↦ absurd (ground (arith, e, k))
        | inr e ↦ elim (Bool-cases (is_same equal_fold a target)) [
          | inl f ↦ absurd (ground (arith, e, f, k))
          | inr f ↦
              let same : some a ≡ some admin = ground (arith, e, f, k) in
              subst
                (λ r.
                  ((r.owner == "") ≡ false)
                  × (((r.name == "") ≡ false) × (is_same equal_fold r target ≡ false)))
                (ap (λ o. elim o [ some x ↦ x | none ↦ a ]) same)
                (ground (arith, e), (ground (arith, e), f))
        ]
      ]

-- What a read comes to.
abbrev pub outcome : AdminRead → Governed
outcome (layer l) = governed l
outcome (unreadable e) = failing e

module _ (equal_fold : String → String → Bool) (ttl : ℕ) (ref : String) (target admin : Repo)
    (given : (ref == "") ≡ false) (valid : validate_admin_repo_ref ref ≡ none)
    (governs : admin_repo_for equal_fold ref target ≡ some admin) where
  for_target-reuse :
      (load : Repo → AdminRead) (now : ℕ) (entries : Entries)
      → for_target equal_fold load ttl ref now target entries
        ≡ reuse equal_fold load ttl admin now entries (lookup (repo_string admin) entries)
  unfolding for_target
  for_target-reuse load now entries =
      ap
        (λ b.
          if b
          then (entries, ungoverned)
          else for_valid equal_fold load ttl ref now target entries (validate_admin_repo_ref ref))
        given
      ∙ ap (for_valid equal_fold load ttl ref now target entries) valid
      ∙ ap (for_admin equal_fold load ttl now entries) governs

  -- What the cache holds after a read.
  abbrev held : ℕ → AdminRead → Option AdminEntry
  held now (layer l) = some (record { layer = l; fetched = now })
  held now (unreadable e) = none

  lookup-read :
      (load : Repo → AdminRead) (now : ℕ) (entries : Entries) (o : AdminRead)
      → lookup (repo_string admin) (read equal_fold load ttl (repo_string admin) now entries o).0
        ≡ held now o
  lookup-read load now entries (layer l) =
      lookup-insert (repo_string admin) (repo_string admin) (record { layer = l; fetched = now })
        entries
      ∙ ground (arith, eq_refl (repo_string admin))
  lookup-read load now entries (unreadable e) =
      lookup-delete (repo_string admin) (repo_string admin) entries
      ∙ ground (arith, eq_refl (repo_string admin))

  read-outcome :
      (load : Repo → AdminRead) (now : ℕ) (entries : Entries) (o : AdminRead)
      → (read equal_fold load ttl (repo_string admin) now entries o).1 ≡ outcome o
  read-outcome load now entries (layer l) = refl
  read-outcome load now entries (unreadable e) = refl

  reuse-held :
      (load : Repo → AdminRead) (now later : ℕ) (entries : Entries) (l : AdminLayer)
      → later ≤ now + ttl
      → reuse equal_fold load ttl admin later entries (held now (layer l)) ≡ (entries, governed l)
  reuse-held load now later entries l soon =
      ap
        (λ b.
          if b
          then read equal_fold load ttl (repo_string admin) later entries (load admin)
          else (entries, governed l))
        fresh_enough
    where
      fresh_enough : ltb ttl (later - now) ≡ false
      fresh_enough = ground arith

  -- Where an admin repository governs and nothing is cached for it, a call reads it. A layer that was read
  -- is then the answer of every call within the life time, which reads nothing and changes nothing; an
  -- error is not kept, and the next call reads again.
  pub for_target-again :
      (load later_load : Repo → AdminRead) (now later : ℕ) (entries : Entries)
      → lookup (repo_string admin) entries ≡ none
      → later ≤ now + ttl
      → let out = for_target equal_fold load ttl ref now target entries in
        (out.1 ≡ outcome (load admin))
        × (((l : AdminLayer)
              → load admin ≡ layer l
              → for_target equal_fold later_load ttl ref later target out.0 ≡ (out.0, governed l))
            × ((e : String)
                → load admin ≡ unreadable e
                → (for_target equal_fold later_load ttl ref later target out.0).1
                  ≡ outcome (later_load admin)))
  for_target-again load later_load now later entries fresh soon =
      let first =
        for_target-reuse load now entries
        ∙ ap (reuse equal_fold load ttl admin now entries) fresh in
      let after = (for_target equal_fold load ttl ref now target entries).0 in
      let kept =
        ap (λ o. lookup (repo_string admin) o.0) first
        ∙ lookup-read load now entries (load admin) in
      let again = for_target-reuse later_load later after in
      (
        ap (λ o. o.1) first ∙ read-outcome load now entries (load admin),
        (
          λ l e.
              again
              ∙ ap (reuse equal_fold later_load ttl admin later after) (kept ∙ ap (held now) e)
              ∙ reuse-held later_load now later after l soon,
          λ e h.
              ap (λ o. o.1)
                (again
                  ∙ ap (reuse equal_fold later_load ttl admin later after) (kept ∙ ap (held now) h))
              ∙ read-outcome later_load later after (later_load admin),
        ),
      )
