-- ===== src/Applier.antt =====
-- internal/applier/applier.go and helpers.go: how a lane turns a difference into mutations and their
-- results. A lane's reads and its mutation are functions that the lane passes in, and so arguments
-- here; the results of a list of mutations come from a run of the pool of internal/conc.
pub mod Runs
pub mod Converged
use repositories_settings.Base.{
  ℕ, String, Bool, true, false, Option, none, some, List, [], ◌∷◌, concat, is_empty, if◌then◌else◌,
}
use repositories_settings.Value.{Fields}
use repositories_settings.Conc.{Status}
use repositories_settings.Diff.{Diff, create, update, delete, noop}
use repositories_settings.Diff.Compare.{Encoding}
use repositories_settings.Diff.Lists.{named_list, single_resource}

-- What a lane did; `unset` is the empty text that a mutation may leave there.
pub data Action : Type 0 where
  unset created updated deleted skipped pending : Action

-- The empty `Error` is that of an action without an explanation.
pub record Result : Type 0 where
  pub resource : String
  pub action : Action
  pub success : Bool
  pub error : String
  pub api_calls_used : ℕ

-- `([]diff.Diff, []Result, error)`
pub record LaneOut : Type 0 where
  pub diffs : List Diff
  pub results : List Result
  pub error : Option String

-- A value, or the text of an error.
pub data Fallible {ℓ} (A : Type ℓ) : Type ℓ where
  ok : A → Fallible A
  err : String → Fallible A

abbrev pub succeeded : String → Action → ℕ → Result
succeeded resource a calls = record {
  resource = resource;
  action = a;
  success = true;
  error = "";
  api_calls_used = calls;
}

abbrev pub waiting_on : String → String → Result
waiting_on resource reason = record {
  resource = resource;
  action = pending;
  success = true;
  error = reason;
  api_calls_used = 0;
}

abbrev pub failure : String → Action → String → ℕ → Result
failure resource a e calls = record {
  resource = resource;
  action = a;
  success = false;
  error = e;
  api_calls_used = calls;
}

abbrev pub action_from_diff : repositories_settings.Diff.Action → Action
action_from_diff create = created
action_from_diff update = updated
action_from_diff delete = deleted
action_from_diff noop = skipped

-- `if act == "" { act = actionFromDiff(d.Action) }`
abbrev pub or_from_diff : Action → Diff → Action
or_from_diff unset d = action_from_diff d.action
or_from_diff a d = a

-- What a mutation returns: its action, and the text of its error.
abbrev pub Mutation : Type 0
Mutation = Diff → Action × Option String

-- The result of a mutation that failed.
abbrev pub failed_mutation : Diff → Action → String → Result
failed_mutation d pending e = waiting_on d.resource e
failed_mutation d a e = failure d.resource (or_from_diff a d) e 1

abbrev pub done_mutation : Diff → Action → Result
done_mutation d pending = waiting_on d.resource ""
done_mutation d a = succeeded d.resource a 1

abbrev pub result_of : Diff → Action × Option String → Result
result_of d (a, some e) = failed_mutation d a e
result_of d (a, none) = done_mutation d a

-- The function that the workers run on each difference.
unfoldable pub attempt : Mutation → Diff → Result
attempt mutate d = result_of d (mutate d)

abbrev pub is_actionable : Diff → Bool
is_actionable d = elim d.action [ noop ↦ false | create ↦ true | update ↦ true | delete ↦ true ]

unfoldable pub actionable : List Diff → List Diff
actionable [] = []
actionable (d ∷ ds) = let rest = actionable ds in if is_actionable d then d ∷ rest else rest

-- The slot of a difference: its result, or for one that never ran a failure that names it.
abbrev pub settle : String → Diff → Status Result → Result
settle ctx_error d (Status.finished r) = r
settle ctx_error d _ = failure d.resource (action_from_diff d.action) ctx_error 0

unfoldable pub settle_all : String → List (Diff × Status Result) → List Result
settle_all ctx_error [] = []
settle_all ctx_error ((d, s) ∷ js) = settle ctx_error d s ∷ settle_all ctx_error js

abbrev fetch_error : String → String → LaneOut
fetch_error resource e = record {
  diffs = [];
  results = [];
  error = some (concat ("fetch " ∷ resource ∷ ": " ∷ e ∷ []));
}

-- `conc_map` is the run of the pool on the mutations, and `ctx_error` the error of its context.
unfoldable pub named_list_run :
    Encoding
    → String
    → String
    → Fallible (List Fields)
    → List Fields
    → (List Diff → List (Diff × Status Result))
    → String
    → Bool
    → LaneOut
unfolding actionable settle_all
named_list_run enc resource key_field (err e) desired conc_map ctx_error dry_run =
    fetch_error resource e
named_list_run enc resource key_field (ok live) desired conc_map ctx_error dry_run =
    let diffs = named_list enc resource live desired key_field in
    let work = actionable diffs in
    if dry_run
    then record { diffs = diffs; results = []; error = none }
    else if is_empty work
    then record { diffs = diffs; results = []; error = none }
    else record { diffs = diffs; results = settle_all ctx_error (conc_map work); error = none }

abbrev mutate_single : Diff → Action × Option String → Result
mutate_single d (a, some e) = failure d.resource (or_from_diff a d) e 1
mutate_single d (a, none) = succeeded d.resource a 1

-- The part after the read.
abbrev pub run_single : Diff → Mutation → Bool → LaneOut
run_single d mutate dry_run =
    if is_actionable d
    then (if dry_run
        then record { diffs = d ∷ []; results = []; error = none }
        else record { diffs = d ∷ []; results = mutate_single d (mutate d) ∷ []; error = none })
    else record { diffs = d ∷ []; results = []; error = none }

unfoldable pub single_resource_run :
    Encoding → String → Fallible (Option Fields) → Option Fields → Mutation → Bool → LaneOut
single_resource_run enc resource live none mutate dry_run = record {
  diffs = [];
  results = [];
  error = none;
}
single_resource_run enc resource (err e) (some desired) mutate dry_run = fetch_error resource e
single_resource_run enc resource (ok live) (some desired) mutate dry_run =
    run_single (single_resource enc resource live (some desired)) mutate dry_run
