-- ===== src/Tests/DiffExamples.antt =====
-- internal/diff and the plans of internal/applier on two rulesets.
use repositories_settings.Base.{
  ◌≡◌, refl, true, false, ◌||◌, ◌<◌, ◌↔◌, arith, none, some, List, [], ◌∷◌, lookup, insert, is_some,
  All, Any, map,
}
use repositories_settings.Value.{lookup_field, depth_fields}
use repositories_settings.Conc.{Status, waiting, busy, default_applier_concurrency}
use repositories_settings.Tests.Schedule.{one_by_one}
use repositories_settings.Diff.{Diff, fields, create}
use repositories_settings.Diff.Compare.{sprint}
use repositories_settings.Diff.Lists.{index_by, named_list}
use repositories_settings.Diff.Conforms.{Conforms, fields-eq-nil}
use repositories_settings.Diff.Plan.{AboutKey, AboutSome, named_list_covers, named_list_only}
use repositories_settings.Applier.{
  updated, created, Mutation, ok, actionable, attempt, named_list_run, single_resource_run, Result,
}
use repositories_settings.Applier.Converged.{single_resource_run-converged}
use repositories_settings.Applier.Runs.{Pairwise, Accounts, named_list_run-Accounts}
use repositories_settings.Tests.Data.{encoding, live_item, desired_item, new_item}

desired_depth : depth_fields desired_item < 5
unfolding depth_fields
desired_depth = omega arith

fields-eq-nil_example :
    (fields encoding live_item desired_item "" ≡ []) ↔ Conforms encoding 5 live_item desired_item
fields-eq-nil_example = fields-eq-nil encoding live_item desired_item "" 5 desired_depth

release_is_desired :
    (is_some (lookup "release" (index_by encoding (live_item ∷ []) "name"))
      || is_some (lookup "release" (index_by encoding (desired_item ∷ new_item ∷ []) "name")))
    ≡ true
unfolding index_by lookup insert sprint lookup_field
release_is_desired = refl

named_list_covers_example :
    Any
      (AboutKey encoding "rulesets"
        (index_by encoding (live_item ∷ []) "name")
        (index_by encoding (desired_item ∷ new_item ∷ []) "name")
        "release")
      (named_list encoding "rulesets" (live_item ∷ []) (desired_item ∷ new_item ∷ []) "name")
named_list_covers_example =
    named_list_covers encoding "rulesets" (live_item ∷ []) (desired_item ∷ new_item ∷ []) "name"
      "release" release_is_desired

named_list_only_example :
    All
      (AboutSome encoding "rulesets"
        (index_by encoding (live_item ∷ []) "name")
        (index_by encoding (desired_item ∷ new_item ∷ []) "name"))
      (named_list encoding "rulesets" (live_item ∷ []) (desired_item ∷ new_item ∷ []) "name")
named_list_only_example =
    named_list_only encoding "rulesets" (live_item ∷ []) (desired_item ∷ new_item ∷ []) "name"

-- Creations succeed; an update fails.
abbrev mutate : Mutation
mutate d = elim d.action [ create ↦ (created, none) | _ ↦ (updated, some "boom") ]

abbrev work : List Diff
work =
    actionable
      (named_list encoding "rulesets" (live_item ∷ []) (desired_item ∷ new_item ∷ []) "name")

abbrev finish_all : List Diff → List (Diff × Status Result)
finish_all ds = map (λ d. (d, Status.finished (attempt mutate d))) ds

none_left : (ds : List Diff) → (waiting (finish_all ds) ≡ 0) × (busy (finish_all ds) ≡ 0)
none_left [] = (refl, refl)
none_left (d ∷ ds) = let (w, b) = none_left ds in (omega (arith, w), omega (arith, b))

named_list_run-Accounts_example :
    Pairwise
      (Accounts mutate "context canceled" false)
      work
      (named_list_run encoding "rulesets" "name"
        (ok (live_item ∷ []))
        (desired_item ∷ new_item ∷ [])
        finish_all
        "context canceled"
        false).results
named_list_run-Accounts_example =
    named_list_run-Accounts encoding "rulesets" "name" (live_item ∷ [])
      (desired_item ∷ new_item ∷ []) mutate "context canceled" default_applier_concurrency
      finish_all false (one_by_one (attempt mutate) default_applier_concurrency work (omega arith))
      (none_left work).0 (none_left work).1

single_resource_run-converged_example :
    ((single_resource_run encoding "repository"
        (ok (some live_item))
        (some desired_item)
        mutate
        false).results
      ≡ [])
    ↔ Conforms encoding 5 live_item desired_item
single_resource_run-converged_example =
    single_resource_run-converged encoding "repository" live_item desired_item mutate 5
      desired_depth
