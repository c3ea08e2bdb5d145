-- ===== src/Server/Parsed.antt =====
-- internal/server/commands.go: which line of a comment is its command.
use package.text.Mathlib.Text.{starts_with}
use repositories_settings.Base.{
  ℕ, ◌⊎◌, codes, not, ◌&&◌, concat, subst, String, ◌==◌, ◌≡◌, ◌≢◌, refl, sym, ap, Bool, true, false,
  ◌||◌, Option, none, some, List, [], ◌∷◌, ◌++◌, arith, All, Bool-cases, inl, inr, if◌then◌else◌,
}
use repositories_settings.Server.Commands.{
  Strings, Command, cmd_none, cmd_recheck, cmd_apply, cmd_help, is_verb, normalize_verb, after,
  ParsedCommand, no_command, or_later, split_lines, match_trigger, is_passed_over, command_of_line,
  first_command, parse_comment,
}

-- What a text may start with to hold a command, in the order in which they are tried.
abbrev pub triggers : String → List String
triggers slug =
    if slug == ""
    then "/repo-settings" ∷ []
    else concat ("@" ∷ slug ∷ []) ∷ concat ("/" ∷ slug ∷ []) ∷ "/repo-settings" ∷ []

-- The first of the triggers that a line in lower case starts with.
abbrev pub IsTriggerOf : String → String → List String → Type 0
IsTriggerOf low t ts =
    (before : List String) × ((after : List String) × ((ts ≡ before ++ t ∷ after)
        × (All (λ other. starts_with low other ≡ false) before × (starts_with low t ≡ true))))

-- What the rest of the line says for a command to be meant; no verb asks for help.
abbrev pub Says : List ℕ → Command → Type 0
Says rest cmd_none = ⊥
Says rest cmd_recheck =
    (is_verb 0 (codes "recheck") rest ≡ true) ⊎ (is_verb 0 (codes "diff") rest ≡ true)
Says rest cmd_apply = is_verb 0 (codes "apply") rest ≡ true
Says rest cmd_help =
    (is_verb 0 (codes "recheck") rest ≡ false)
    × ((is_verb 0 (codes "diff") rest ≡ false) × (is_verb 0 (codes "apply") rest ≡ false))

if-elim :
    {A : Type 0}
    → (P : A → Type 0) (b : Bool) (x y : A) → (b ≡ true → P x)
    → (b ≡ false → P y)
    → P (if b then x else y)
if-elim P true x y f g = f refl
if-elim P false x y f g = g refl

or-split : (a b : Bool) → (a || b) ≡ true → (a ≡ true) ⊎ (b ≡ true)
or-split true b h = inl refl
or-split false b h = inr h

or-false : (a b : Bool) → (a || b) ≡ false → (a ≡ false) × (b ≡ false)
or-false true b h = (h, ground (arith, h))
or-false false b h = (refl, h)

normalize_verb-Says : (rest : List ℕ) → Says rest (normalize_verb rest)
unfolding normalize_verb
normalize_verb-Says rest =
    if-elim (Says rest) (is_verb 0 (codes "recheck") rest || is_verb 0 (codes "diff") rest) _ _
      (λ e. or-split _ _ e)
      (λ e.
        if-elim (Says rest) (is_verb 0 (codes "apply") rest) _ _ (λ k. k)
          (λ k. let none_first = or-false _ _ e in (none_first.0, (none_first.1, k))))

module _ (u : Strings) where
  -- A line is blank or quoted, or starts with no trigger.
  abbrev pub NoCommand : String → String → Type 0
  NoCommand slug line =
      (is_passed_over u (u.trim_space line) ≡ true)
      ⊎ All (λ t. starts_with (u.to_lower (u.trim_space line)) t ≡ false) (triggers slug)

  -- A line is neither blank nor quoted, starts with a trigger, and what follows it says the command.
  abbrev pub HasCommand : String → String → ParsedCommand → Type 0
  HasCommand slug line cmd =
      (is_passed_over u (u.trim_space line) ≡ false)
      × ((t : String) × (IsTriggerOf (u.to_lower (u.trim_space line)) t (triggers slug)
            × (Says (after u (u.trim_space line) t) cmd.command × (cmd.slug ≡ slug))))

  -- The command is that of the first line with one.
  abbrev pub IsCommandOf : String → List String → ParsedCommand → Type 0
  IsCommandOf slug lines cmd =
      (before : List String) × ((line : String) × ((after : List String) × ((lines
              ≡ before ++ line ∷ after)
            × (All (NoCommand slug) before × HasCommand slug line cmd))))

  -- The answer for a line, by its first trigger.
  abbrev Answers : String → String → Option ParsedCommand → Type 0
  Answers slug line none = All (λ t. starts_with (u.to_lower line) t ≡ false) (triggers slug)
  Answers slug line (some cmd) =
      (t : String) × (IsTriggerOf (u.to_lower line) t (triggers slug)
        × (Says (after u line t) cmd.command × (cmd.slug ≡ slug)))

  match_trigger-Answers : (line slug : String) → Answers slug line (match_trigger u line slug)
  unfolding match_trigger
  match_trigger-Answers line slug =
      if-elim P (not (slug == "") && starts_with low at) _ _
        (λ e. answer at (
          [],
          (slash ∷ "/repo-settings" ∷ [], (named (ground (arith, e)), (tt, ground (arith, e)))),
        ))
        (λ no_at.
          if-elim P (not (slug == "") && starts_with low slash) _ _
            (λ e. answer slash (
              at ∷ [],
              (
                "/repo-settings" ∷ [],
                (named (ground (arith, e)), ((ground (arith, no_at, e), tt), ground (arith, e))),
              ),
            ))
            (λ no_slash.
              if-elim P (starts_with low "/repo-settings") _ _
                (λ e. answer "/repo-settings" (last no_at no_slash e))
                (λ e. nothing no_at no_slash e)))
    where
      low : String
      low = u.to_lower line

      at : String
      at = concat ("@" ∷ slug ∷ [])

      slash : String
      slash = concat ("/" ∷ slug ∷ [])

      P : Option ParsedCommand → Type 0
      P = Answers slug line

      answer :
          (t : String)
          → IsTriggerOf low t (triggers slug)
          → P (some (record { command = normalize_verb (after u line t); slug = slug }))
      answer t h = (t, (h, (normalize_verb-Says (after u line t), refl)))

      named : (slug == "") ≡ false → triggers slug ≡ at ∷ slash ∷ "/repo-settings" ∷ []
      named e = ap (λ b. if b then "/repo-settings" ∷ [] else at ∷ slash ∷ "/repo-settings" ∷ []) e

      unnamed : (slug == "") ≡ true → triggers slug ≡ "/repo-settings" ∷ []
      unnamed e =
          ap (λ b. if b then "/repo-settings" ∷ [] else at ∷ slash ∷ "/repo-settings" ∷ []) e

      last :
          (not (slug == "") && starts_with low at) ≡ false
          → (not (slug == "") && starts_with low slash) ≡ false
          → starts_with low "/repo-settings" ≡ true
          → IsTriggerOf low "/repo-settings" (triggers slug)
      last no_at no_slash e = elim (Bool-cases (slug == "")) [
        | inl k ↦ ([], ([], (unnamed k, (tt, e))))
        | inr k ↦ (
          at ∷ slash ∷ [],
          ([], (named k, ((ground (arith, no_at, k), (ground (arith, no_slash, k), tt)), e))),
        )
      ]

      nothing :
          (not (slug == "") && starts_with low at) ≡ false
          → (not (slug == "") && starts_with low slash) ≡ false
          → starts_with low "/repo-settings" ≡ false
          → P none
      nothing no_at no_slash e = elim (Bool-cases (slug == "")) [
        | inl k ↦ subst (All (λ t. starts_with low t ≡ false)) (sym (unnamed k)) (e, tt)
        | inr k ↦
            subst (All (λ t. starts_with low t ≡ false)) (sym (named k))
              (ground (arith, no_at, k), (ground (arith, no_slash, k), (e, tt)))
      ]

  command_of_line-Has :
      (slug line : String) {cmd : ParsedCommand}
      → command_of_line u slug line ≡ some cmd
      → HasCommand slug line cmd
  unfolding command_of_line
  command_of_line-Has slug line {cmd = cmd} h =
      elim (Bool-cases (is_passed_over u (u.trim_space line))) [
        | inl e ↦ absurd (ground (arith, e, h))
        | inr e ↦ (
          e,
          let found : match_trigger u (u.trim_space line) slug ≡ some cmd = ground (arith, e, h) in
              subst (Answers slug (u.trim_space line)) found
                (match_trigger-Answers (u.trim_space line) slug),
        )
      ]

  command_of_line-No :
      (slug line : String) → command_of_line u slug line ≡ none → NoCommand slug line
  unfolding command_of_line
  command_of_line-No slug line h = elim (Bool-cases (is_passed_over u (u.trim_space line))) [
    | inl e ↦ inl e
    | inr e ↦
        let missed : match_trigger u (u.trim_space line) slug ≡ none = ground (arith, e, h) in
        inr (
          subst (Answers slug (u.trim_space line)) missed
            (match_trigger-Answers (u.trim_space line) slug))
  ]

  first_command-IsCommandOf :
      (slug : String) (lines : List String)
      → (first_command u slug lines).command ≢ cmd_none
      → IsCommandOf slug lines (first_command u slug lines)
  unfolding first_command
  first_command-IsCommandOf slug [] h = absurd (h refl)
  first_command-IsCommandOf slug (line ∷ lines) h =
      at_line (command_of_line u slug line) refl h (λ k. first_command-IsCommandOf slug lines k)
    where
      later :
          IsCommandOf slug lines (first_command u slug lines)
          → command_of_line u slug line ≡ none
          → IsCommandOf slug (line ∷ lines) (first_command u slug lines)
      later (before, (l, (after, (e, (skipped, found))))) none_here = (
        line ∷ before,
        (
          l,
          (
            after,
            (ap (λ t. line ∷ t) e, ((command_of_line-No slug line none_here, skipped), found)),
          ),
        ),
      )

      at_line :
          (o : Option ParsedCommand)
          → command_of_line u slug line ≡ o
          → (or_later o (first_command u slug lines)).command ≢ cmd_none
          → ((first_command u slug lines).command ≢ cmd_none
              → IsCommandOf slug lines (first_command u slug lines))
          → IsCommandOf slug (line ∷ lines) (or_later o (first_command u slug lines))
      at_line none e k rest = later (rest k) e
      at_line (some cmd) e k rest =
          ([], (line, (lines, (refl, (tt, command_of_line-Has slug line e)))))

  -- A command of a comment is that of its first line that has one: the line is neither blank nor quoted,
  -- it starts, in lower case, with `@slug` or `/slug`, where there is a slug, or with `/repo-settings`,
  -- and the verb of the command follows the first of these; each line before it is blank, or quoted, or
  -- starts with none of them. It is an apply only where the verb `apply` follows.
  pub parse_comment-IsCommandOf :
      (body bot_slug : String)
      → (parse_comment u body bot_slug).command ≢ cmd_none
      → IsCommandOf
          (u.to_lower (u.trim_space bot_slug))
          (split_lines "" body)
          (parse_comment u body bot_slug)
  unfolding parse_comment
  parse_comment-IsCommandOf body bot_slug = at_test (body == "")
    where
      slug : String
      slug = u.to_lower (u.trim_space bot_slug)

      at_test :
          (b : Bool)
          → (if b then no_command else first_command u slug (split_lines "" body)).command
            ≢ cmd_none
          → IsCommandOf slug
              (split_lines "" body)
              (if b then no_command else first_command u slug (split_lines "" body))
      at_test true h = absurd (h refl)
      at_test false h = first_command-IsCommandOf slug (split_lines "" body) h
