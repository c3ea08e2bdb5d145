-- ===== src/Server/Signature.antt =====
-- internal/server/webhook.go: what the check of a signature accepts, and the two modes of the check.
use Prim.Native.String.{◌++◌ as append, slice, len}
use package.text.Mathlib.Text.{starts_with}
use package.text.Mathlib.TextEquality.{starts_with_iff}
use package.text.Mathlib.TextPositions.{len-append, slice-append_right, starts_with-append}
use repositories_settings.Base.{
  String, ◌==◌, ◌≡◌, ◌≢◌, ◌⊎◌, ◌↔◌, sym, ap, ◌∙◌, true, ◌&&◌, [], ◌∷◌, arith, concat, Bool-cases,
  inl, inr, eq_iff,
}
use repositories_settings.Server.Commands.{Strings}
use repositories_settings.Server.Webhook.{World}
use repositories_settings.Server.Intake.{Deps, verify_hmac, is_authentic}

-- The text after a prefix, as a slice takes it.
slice_after : (p rest : String) → slice (append p rest) (len p) (len (append p rest)) ≡ rest
slice_after p rest =
    ap (λ n. slice (append p rest) (len p) n) (len-append p rest) ∙ slice-append_right p rest

-- A text starts with a prefix and goes on as `rest` exactly when it is the two joined.
prefix_and_rest :
    (s p rest : String)
    → ((starts_with s p && rest == slice s (len p) (len s)) ≡ true) ↔ (s ≡ append p rest)
prefix_and_rest s p rest = (
  λ h.
      let (tail, e) = (starts_with_iff s p).0 (ground (arith, h)) in
      let same : rest ≡ slice s (len p) (len s) = (eq_iff _ _).0 (ground (arith, h)) in
      let is_tail : rest ≡ tail =
        same ∙ ap (λ t. slice t (len p) (len t)) (sym e) ∙ slice_after p tail in
      sym e ∙ ap (append p) (sym is_tail),
  λ e.
      let starts = ap (λ t. starts_with t p) e ∙ starts_with-append p rest in
      let same =
        (eq_iff rest (slice s (len p) (len s))).1
          (sym (ap (λ t. slice t (len p) (len t)) e ∙ slice_after p rest)) in
      ground (arith, starts, same),
)

module _ (u : Strings) (w : World) (deps : Deps) (body signature : String) where
  -- The header is `sha256=` and the digest of the body under the secret.
  abbrev pub IsSigned : Type 0
  IsSigned = signature ≡ concat ("sha256=" ∷ w.hmac_hex deps.webhook_secret body ∷ [])

  -- A secret is configured and the header has its digest of the body; or none is, and the
  -- unauthenticated mode is explicitly on.
  abbrev pub IsTrusted : Type 0
  IsTrusted =
      (deps.webhook_secret ≢ "" × IsSigned)
      ⊎ (deps.webhook_secret ≡ "" × deps.allow_unauthenticated ≡ true)

  -- The check of a webhook accepts exactly a request with `sha256=` and the digest of its body under the
  -- secret as its header, where a secret is configured, and every request where none is and the
  -- unauthenticated mode is explicitly on.
  pub is_authentic-IsTrusted : (is_authentic u w deps body signature ≡ true) ↔ IsTrusted
  unfolding is_authentic verify_hmac
  is_authentic-IsTrusted = elim (Bool-cases (deps.webhook_secret == "")) [
    | inl missing ↦
        let empty = (eq_iff deps.webhook_secret "").0 missing in
        (
          λ h. inr (empty, ground (arith, missing, h)),
          λ t. elim t [ inl s ↦ absurd (s.0 empty) | inr o ↦ ground (arith, missing, o.1) ],
        )
    | inr given ↦
        let secret : deps.webhook_secret ≢ "" =
          λ e. absurd (ground (arith, given, (eq_iff deps.webhook_secret "").1 e)) in
        let signed = prefix_and_rest signature "sha256=" (w.hmac_hex deps.webhook_secret body) in
        (
          λ h. inl (secret, signed.0 (ground (arith, given, h))),
          λ t. elim t [ inl s ↦ ground (arith, given, signed.1 s.1) | inr o ↦ absurd (secret o.0) ],
        )
  ]
