-- ===== src/Oidc/Laws.antt =====
-- internal/oidc/github.go: the names of a repository, and what an accepted token has shown.
use Prim.Native.Char.{Char, code}
use Prim.Native.String.{◌++◌ as append}
use package.text.Mathlib.TextLemmas.{nil-append, cons-append}
use repositories_settings.Base.{
  ℕ, String, ◌==◌, ◌≡◌, ◌≢◌, refl, ap, ◌∙◌, Bool, true, false, Option, none, some, [], ◌∷◌, concat,
  arith, count, before, after, ==-of_ne, if◌then◌else◌,
}
use repositories_settings.Value.{Value, null, bool, num, text, arr, obj}
use repositories_settings.Oidc.Subject.{split_repository}
use repositories_settings.Oidc.{
  GithubIdentity, GithubIdentityError, Parsed, refused, identity, identity_error, with_claim,
}

module _ (sep : ℕ) (c : Char) (is_sep : code c ≡ sep) where
  before-append : (s t : String) → count sep s ≡ 0 → before sep (append s (String.◌∷◌ c t)) ≡ s
  before-append String.[] t h = rw nil-append (ground (arith, is_sep))
  before-append (String.◌∷◌ d s) t h =
      rw cons-append (let rest = before-append s t (ground arith) in ground (arith, rest))

  after-append : (s t : String) → count sep s ≡ 0 → after sep (append s (String.◌∷◌ c t)) ≡ t
  after-append String.[] t h = rw nil-append (ground (arith, is_sep))
  after-append (String.◌∷◌ d s) t h =
      rw cons-append (let rest = after-append s t (ground arith) in ground (arith, rest))

  count-append :
      (s t : String) → count sep s ≡ 0 → count sep t ≡ 0 → count sep (append s (String.◌∷◌ c t)) ≡ 1
  count-append String.[] t h k = rw nil-append (ground (arith, is_sep))
  count-append (String.◌∷◌ d s) t h k =
      rw cons-append (let rest = count-append s t (ground arith) k in ground (arith, rest))

joined_name :
    (owner name : String) → concat (owner ∷ "/" ∷ name ∷ []) ≡ append owner (String.◌∷◌ "/" name)
joined_name owner name =
    ap (append owner) (cons-append "/" "" name ∙ ap (String.◌∷◌ "/") (nil-append name))

-- An owner and a name without slashes, joined by one, are found again.
pub split_repository-concat :
    (owner name : String)
    → count b'/' owner ≡ 0
    → count b'/' name ≡ 0
    → owner ≢ ""
    → name ≢ ""
    → split_repository (concat (owner ∷ "/" ∷ name ∷ [])) ≡ some (owner, name)
unfolding split_repository
split_repository-concat owner name h k o n = rw joined_name (
    rw
      (
        before-append b'/' "/" refl owner name h,
        after-append b'/' "/" refl owner name h,
        count-append b'/' "/" refl owner name h k,
        ==-of_ne owner "" o,
        ==-of_ne name "" n,
      )
      refl)

pub past :
    (b : Bool) (err : GithubIdentityError) (rest : Parsed) {id : GithubIdentity}
    → (if b then refused err else rest) ≡ identity id
    → (b ≡ false) × (rest ≡ identity id)
past true err rest h = absurd (ground (arith, h))
past false err rest h = (refl, h)

pub with_claim-inv :
    (name : String) (o : Option Value) (rest : String → Parsed) {id : GithubIdentity}
    → with_claim name o rest ≡ identity id
    → (s : String) × ((o ≡ some (text s)) × (rest s ≡ identity id))
unfolding identity_error
with_claim-inv name none rest h = absurd (ground (arith, h))
with_claim-inv name (some (text s)) rest h = (s, (refl, (past (s == "") _ (rest s) h).1))
with_claim-inv name (some null) rest h = absurd (ground (arith, h))
with_claim-inv name (some (bool b)) rest h = absurd (ground (arith, h))
with_claim-inv name (some (num n)) rest h = absurd (ground (arith, h))
with_claim-inv name (some (arr vs)) rest h = absurd (ground (arith, h))
with_claim-inv name (some (obj m)) rest h = absurd (ground (arith, h))
