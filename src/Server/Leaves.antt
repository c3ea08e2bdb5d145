-- ===== src/Server/Leaves.antt =====
-- internal/server/webhook.go: which errors go to the comment.
use repositories_settings.Base.{
  ◌≡◌, refl, sym, ◌∙◌, Bool, ◌||◌, Option, none, some, List, [], ◌∷◌, ◌++◌, arith, any, is_some,
}
use repositories_settings.Config.Validate.{ValidationError}
use repositories_settings.Server.Failures.{
  Failure, Failures, invalid_file, plain, wrapped, joined, no_more, also, or_else, as_validation,
  any_validation, flatten_errors, flatten_each, is_config_error,
}

or_else_none : (a b : Option ValidationError) → is_some (or_else a b) ≡ (is_some a || is_some b)
or_else_none none b = refl
or_else_none (some e) b = refl

any-append : (p : Failure → Bool) (xs ys : List Failure) → any p (xs ++ ys) ≡ (any p xs || any p ys)
any-append p [] ys = refl
any-append p (x ∷ xs) ys = ground (arith, any-append p xs ys)

abbrev is_validation : Failure → Bool
is_validation e = is_some (as_validation e)

mutual
  unfolding as_validation flatten_errors

  flatten_errors-as_validation :
      (e : Failure) → any is_validation (flatten_errors e) ≡ is_validation e
  flatten_errors-as_validation (invalid_file e) = refl
  flatten_errors-as_validation (plain s) = refl
  flatten_errors-as_validation (wrapped s e) = ground arith
  flatten_errors-as_validation (joined es) = flatten_each-any_validation es

  flatten_each-any_validation :
      (es : Failures) → any is_validation (flatten_each es) ≡ is_some (any_validation es)
  flatten_each-any_validation no_more = refl
  flatten_each-any_validation (also e es) =
      any-append is_validation (flatten_errors e) (flatten_each es)
      ∙ cc (flatten_errors-as_validation e, flatten_each-any_validation es)
      ∙ sym (or_else_none (as_validation e) (any_validation es))

-- An error goes to the comment exactly when one of its leaves is a validation error or wraps one: the
-- search of the whole tree and the search of the leaves agree.
pub is_config_error-eq :
    (e : Failure)
    → (is_config_error e ≡ is_some (as_validation e))
      × (is_config_error e ≡ any (λ leaf. is_some (as_validation leaf)) (flatten_errors e))
unfolding is_config_error
is_config_error-eq e =
    let same = flatten_errors-as_validation e in (ground (arith, same), ground (arith, same))
