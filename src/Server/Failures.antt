-- ===== src/Server/Failures.antt =====
-- internal/server/webhook.go: the errors that a load returns, as far as the server tells them apart,
-- and the text of the comment that shows them.
use repositories_settings.Base.{
  String, ◌==◌, if◌then◌else◌, Bool, ◌||◌, Option, none, some, List, [], ◌∷◌, ◌++◌, concat, join,
  any, is_some,
}
use repositories_settings.Config.Validate.{ValidationError}

mutual
  -- A Go error: a validation error, a text, `fmt.Errorf("%s: %w")` and `errors.Join`.
  pub data Failure : Type 0 where
    invalid_file : ValidationError → Failure
    plain : String → Failure
    wrapped : String → Failure → Failure
    joined : Failures → Failure

  pub data Failures : Type 0 where
    no_more : Failures
    also : Failure → Failures → Failures

-- `ValidationError.Error`
unfoldable pub validation_text : ValidationError → String
validation_text e =
    let issues = join "; " e.issues in
    if e.file == "" then issues else concat (e.file ∷ ": " ∷ issues ∷ [])

abbrev pub or_else : Option ValidationError → Option ValidationError → Option ValidationError
or_else none later = later
or_else (some e) later = some e

unfoldable mutual
  unfolding validation_text

  -- `err.Error()`
  pub error_text : Failure → String
  error_text (invalid_file e) = validation_text e
  error_text (plain s) = s
  error_text (wrapped s e) = concat (s ∷ ": " ∷ error_text e ∷ [])
  error_text (joined es) = join "\n" (error_texts es)

  pub error_texts : Failures → List String
  error_texts no_more = []
  error_texts (also e es) = error_text e ∷ error_texts es

unfoldable mutual
  -- `errors.As(err, &ve)`: the first validation error of the tree.
  pub as_validation : Failure → Option ValidationError
  as_validation (invalid_file e) = some e
  as_validation (plain s) = none
  as_validation (wrapped s e) = as_validation e
  as_validation (joined es) = any_validation es

  pub any_validation : Failures → Option ValidationError
  any_validation no_more = none
  any_validation (also e es) = or_else (as_validation e) (any_validation es)

unfoldable mutual
  -- The leaves of the joined errors; a wrapped error is a leaf.
  pub flatten_errors : Failure → List Failure
  flatten_errors (joined es) = flatten_each es
  flatten_errors e = e ∷ []

  pub flatten_each : Failures → List Failure
  flatten_each no_more = []
  flatten_each (also e es) = flatten_errors e ++ flatten_each es

unfoldable pub is_config_error : Failure → Bool
unfolding as_validation flatten_errors
is_config_error e =
    is_some (as_validation e) || any (λ leaf. is_some (as_validation leaf)) (flatten_errors e)

abbrev pub issue_lines : List String → List String
issue_lines [] = []
issue_lines (i ∷ is) = "- " ∷ i ∷ "\n" ∷ issue_lines is

unfoldable pub leaf_lines : Option ValidationError → Failure → List String
leaf_lines (some ve) leaf = "**`" ∷ ve.file ∷ "`**\n" ∷ (issue_lines ve.issues ++ ("\n" ∷ []))
leaf_lines none leaf = "- " ∷ error_text leaf ∷ "\n" ∷ []

abbrev pub leaves_lines : List Failure → List String
leaves_lines [] = []
leaves_lines (leaf ∷ leaves) = leaf_lines (as_validation leaf) leaf ++ leaves_lines leaves

unfoldable pub format_config_errors : Failure → String
unfolding flatten_errors leaf_lines
format_config_errors e = concat (
    "## repo-settings — configuration error\n\nThe bot couldn't parse the configuration in this branch:\n\n"
    ∷ (leaves_lines (flatten_errors e)
        ++ ("\nFix the file(s) above and push again, or comment `recheck` to retry." ∷ [])))
