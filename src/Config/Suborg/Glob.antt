-- ===== src/Config/Suborg/Glob.antt =====
-- internal/config/glob.go: a glob pattern is rewritten to the source of a regular expression. The
-- regexp engine that runs it is a parameter; the cache of compiled patterns returns what compiling
-- again would return, and is left out.
use repositories_settings.Base.{
  ℕ, ◌≡◌, refl, Bool, false, List, [], ◌∷◌, ◌++◌, String, arith, All, codes, mem_rune, replace_all,
  replace_all-absent, nat_eq, if◌then◌else◌, Option, none, some, is_some, true,
}

abbrev pub meta : List ℕ
meta = codes ".+^$" ++ codes "{}()|[]\\"

unfoldable pub regexp_escape : List ℕ → List ℕ
unfolding mem_rune
regexp_escape [] = []
regexp_escape (r ∷ s) = if mem_rune r meta then b'\\' ∷ r ∷ regexp_escape s else r ∷ regexp_escape s

-- "\x00\x00GLOBSTAR\x00\x00"
abbrev pub globstar : List ℕ
globstar = 0 ∷ 0 ∷ codes "GLOBSTAR" ++ (0 ∷ 0 ∷ [])

-- The source text that `globRegex` compiles.
unfoldable pub glob_regex : List ℕ → List ℕ
unfolding regexp_escape replace_all
glob_regex pattern =
    let p0 = regexp_escape pattern in
    let p1 = replace_all p0 (codes "**") globstar in
    let p2 = replace_all p1 (codes "*") (codes "[^/]*") in
    let p3 = replace_all p2 globstar (codes ".*") in
    let p4 = replace_all p3 (codes "\\?") (codes "[^/]") in codes "(?i)^" ++ (p4 ++ codes "$")

-- `globRegex(pattern).MatchString(text)`, with the regexp package on the source of the expression and
-- the text: `none` where the rewritten pattern does not compile and `regexp.MustCompile` panics, as
-- for `svc-???`.
unfoldable pub glob_match : (List ℕ → List ℕ → Option Bool) → String → String → Option Bool
glob_match regexp_match text pattern = regexp_match (glob_regex (codes pattern)) (codes text)

-- The Boolean that a caller branches on. A panic ends the caller's run, so what follows `none` is no
-- result of the code: `Compiles` is the domain on which there is one.
abbrev pub matched : Option Bool → Bool
matched none = false
matched (some b) = b

-- MustCompile accepts the rewritten pattern.
abbrev pub Compiles : (List ℕ → List ℕ → Option Bool) → String → Type 0
Compiles regexp_match pattern =
    (text : String) → is_some (glob_match regexp_match text pattern) ≡ true

-- A code point that no rewriting step touches. `?` is one.
abbrev pub IsPlain : ℕ → Type 0
IsPlain c = (mem_rune c meta ≡ false) × (nat_eq c b'*' ≡ false) × (nat_eq c 0 ≡ false)

plain_escape : (p : List ℕ) → All IsPlain p → regexp_escape p ≡ p
unfolding regexp_escape
plain_escape [] h = refl
plain_escape (c ∷ p) h = ground (arith, h.0.0, plain_escape p h.1)

All-map : (P Q : ℕ → Type 0) → ((c : ℕ) → P c → Q c) → (p : List ℕ) → All P p → All Q p
All-map P Q f [] h = tt
All-map P Q f (c ∷ p) h = (f c h.0, All-map P Q f p h.1)

not_backslash : (c : ℕ) → IsPlain c → nat_eq c b'\\' ≡ false
unfolding mem_rune
not_backslash c h = ground (arith, h.0)

-- `?` is not rewritten: a pattern without metacharacters, `*` and NUL is compiled as it stands, so
-- each `?` in it reaches the regexp engine as it is.
pub glob_regex-plain :
    (p : List ℕ) → All IsPlain p → glob_regex p ≡ codes "(?i)^" ++ (p ++ codes "$")
unfolding glob_regex
glob_regex-plain p h =
    let no_star = All-map IsPlain (λ c. nat_eq c b'*' ≡ false) (λ c k. k.1) p h in
    let no_nul = All-map IsPlain (λ c. nat_eq c 0 ≡ false) (λ c k. k.2) p h in
    let no_slash = All-map IsPlain (λ c. nat_eq c b'\\' ≡ false) not_backslash p h in
    rw (
      plain_escape p h,
      replace_all-absent b'*' (b'*' ∷ []) globstar p no_star,
      replace_all-absent b'*' [] (codes "[^/]*") p no_star,
      replace_all-absent 0 (0 ∷ codes "GLOBSTAR" ++ (0 ∷ 0 ∷ [])) (codes ".*") p no_nul,
      replace_all-absent b'\\' (b'?' ∷ []) (codes "[^/]") p no_slash,
    )
