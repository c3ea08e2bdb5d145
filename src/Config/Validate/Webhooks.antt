-- ===== src/Config/Validate/Webhooks.antt =====
-- internal/config/validate.go: the accepted files of webhooks.
use Prim.Native.String.{◌++◌ as append}
use package.text.Mathlib.TextEquality.{starts_with_iff}
use package.text.Mathlib.Text.{starts_with}
use repositories_settings.Base.{
  ℕ, String, ◌==◌, ◌≡◌, ◌⊎◌, ◌↔◌, refl, subst, true, false, not, Option, none, some, List, [], ◌∷◌,
  arith, All, Bool-cases, inl, inr, eq_iff, is_some, if◌then◌else◌,
}
use repositories_settings.Base.Int.{pos}
use repositories_settings.Config.Schema.{items, Webhook}
use repositories_settings.Config.Files.{WebhooksFile}
use repositories_settings.Config.Policy.Inputs.{Runtime}
use repositories_settings.Config.Validate.{add_if, one_of}
use repositories_settings.Config.Validate.Laws.{
  finalize-eq-none, both-eq-nil, each_at-eq-nil, require_version-eq-nil, IsGiven, add_if_iff,
  at_least_one-eq-nil, not-eq-false,
}
use repositories_settings.Config.Validate.Entries.{
  is_http, is_given_empty, bad_url, content_issues, webhook_issues, validate_webhooks_file,
}

-- The two schemes of a webhook, with the slashes.
abbrev pub IsHttp : String → Type 0
IsHttp url = (rest : String) × ((append "http://" rest ≡ url) ⊎ (append "https://" rest ≡ url))

is_http-IsHttp : (url : String) → (is_http url ≡ true) ↔ IsHttp url
is_http-IsHttp url = (
  λ e. elim (Bool-cases (starts_with url "http://")) [
    | inl h ↦ let (rest, k) = (starts_with_iff url "http://").0 h in (rest, inl k)
    | inr h ↦
        let (rest, k) = (starts_with_iff url "https://").0 (ground (arith, e, h)) in (rest, inr k)
  ],
  λ p. elim p.1 [
    | inl k ↦ let h = (starts_with_iff url "http://").1 (p.0, k) in ground (arith, h)
    | inr k ↦
        let h = (starts_with_iff url "https://").1 (p.0, k) in
        elim (Bool-cases (starts_with url "http://")) [
          | inl g ↦ ground (arith, g)
          | inr g ↦ ground (arith, g, h)
        ]
  ],
)

-- A content type that is set is one of two.
abbrev pub IsContentType : Option String → Type 0
IsContentType none = Unit
IsContentType (some c) = one_of c ("json" ∷ "form" ∷ []) ≡ true

-- Events that are set are at least one.
abbrev pub HasEvents : Option (List String) → Type 0
HasEvents none = Unit
HasEvents (some xs) = IsGiven xs

is_given_empty-HasEvents : (o : Option (List String)) → (is_given_empty o ≡ false) ↔ HasEvents o
is_given_empty-HasEvents none = (λ e. tt, λ p. refl)
is_given_empty-HasEvents (some []) = (λ e. absurd (cc e), λ p. absurd (p refl))
is_given_empty-HasEvents (some (x ∷ xs)) = (λ e f. absurd (cc f), λ p. refl)

module _ (rt : Runtime) (url_scheme : String → Option String) where
  -- A URL that `url.Parse` reads and that is http or https, and nothing that this service does not apply.
  abbrev pub IsSoundWebhook : Webhook → Type 0
  IsSoundWebhook w =
      ((((is_some (url_scheme w.url) ≡ true) × IsHttp w.url) × IsContentType w.content_type)
        × HasEvents w.events)
      × (w.secret_ref ≡ "")

  content_issues-eq-nil :
      (i : ℕ) (o : Option String) → (content_issues rt url_scheme i o ≡ []) ↔ IsContentType o
  content_issues-eq-nil i none = (λ e. tt, λ p. refl)
  content_issues-eq-nil i (some c) = add_if_iff _ _ (not-eq-false (one_of c ("json" ∷ "form" ∷ [])))

  bad_url-eq-false :
      (url : String)
      → (bad_url rt url_scheme url ≡ false) ↔ ((is_some (url_scheme url) ≡ true) × IsHttp url)
  bad_url-eq-false url = (
    λ e. (ground (arith, e), (is_http-IsHttp url).0 (ground (arith, e))),
    λ p. let h = (is_http-IsHttp url).1 p.1 in ground (arith, h, p.0),
  )

  not_the_empty_text : (url : String) → IsHttp url → (url == "") ≡ false
  not_the_empty_text url p = elim (Bool-cases (url == "")) [
    | inl e ↦
        let none_such = (is_http-IsHttp "").1 (subst IsHttp ((eq_iff url "").0 e) p) in
        absurd (cc none_such)
    | inr e ↦ e
  ]

  url_issues-eq-nil :
      (url required invalid : String)
      → ((if url == "" then required ∷ [] else add_if (bad_url rt url_scheme url) invalid) ≡ [])
        ↔ ((is_some (url_scheme url) ≡ true) × IsHttp url)
  url_issues-eq-nil url required invalid =
      let test = add_if_iff _ invalid (bad_url-eq-false url) in
      (
        λ e. elim (Bool-cases (url == "")) [
          | inl k ↦ absurd (cc (k, e))
          | inr k ↦ test.0 (cc (k, e))
        ],
        λ p. let k = not_the_empty_text url p.1 in cc (k, test.1 p),
      )

  webhook_issues-eq-nil :
      (i : ℕ) (w : Webhook) → (webhook_issues rt url_scheme i w ≡ []) ↔ IsSoundWebhook w
  webhook_issues-eq-nil i w =
      let no_secret = add_if_iff _ _ (not_empty-eq-false w.secret_ref) in
      both-eq-nil _ _
        (both-eq-nil _ _
          (both-eq-nil _ _ (url_issues-eq-nil w.url _ _) (content_issues-eq-nil i w.content_type))
          (add_if_iff _ _ (is_given_empty-HasEvents w.events)))
        no_secret
    where
      not_empty-eq-false : (s : String) → (not (s == "") ≡ false) ↔ (s ≡ "")
      not_empty-eq-false s =
          let test = not-eq-false (s == "") in
          (λ e. (eq_iff s "").0 (test.0 e), λ e. test.1 ((eq_iff s "").1 e))

  -- webhooks.yml is accepted exactly when its version is 1, it lists a webhook, and each has a URL that
  -- `url.Parse` reads and that starts with `http://` or `https://`, a content type of json or form where
  -- one is set, at least one event where the events are set, and no reference to a secret.
  pub validate_webhooks_file-eq-none :
      (f : WebhooksFile)
      → (validate_webhooks_file rt url_scheme f ≡ none) ↔ (
          ((f.version ≡ pos 1) × IsGiven (items f.webhooks))
          × All IsSoundWebhook (items f.webhooks))
  unfolding validate_webhooks_file
  validate_webhooks_file-eq-none f =
      let ok = finalize-eq-none "webhooks.yml" _ in
      let parts =
        both-eq-nil _ _
          (both-eq-nil _ _ (require_version-eq-nil rt f.version)
            (at_least_one-eq-nil (items f.webhooks) _))
          (each_at-eq-nil (webhook_issues rt url_scheme) IsSoundWebhook webhook_issues-eq-nil 0
            (items f.webhooks)) in
      (λ e. parts.0 (ok.0 e), λ p. ok.1 (parts.1 p))
