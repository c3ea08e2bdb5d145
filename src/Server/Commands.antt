-- ===== src/Server/Commands.antt =====
-- internal/server/commands.go: the verbs that a comment may hold. The functions of package strings that
-- rest on the tables of Unicode are arguments.
use Prim.Native.Char.{code}
use Prim.Native.String.{slice, len}
use package.text.Mathlib.Text.{starts_with}
use repositories_settings.Base.{
  ℕ, ◌+◌, String, ◌==◌, Bool, false, ◌&&◌, ◌||◌, not, Option, none, some, List, [], ◌∷◌, codes,
  concat, leb, nat_eq, if◌then◌else◌,
}

-- `strings.ToLower`, `strings.TrimSpace` and `strings.EqualFold`.
pub record Strings : Type 0 where
  pub to_lower : String → String
  pub trim_space : String → String
  pub equal_fold : String → String → Bool

pub data Command : Type 0 where
  cmd_none cmd_recheck cmd_apply cmd_help : Command

pub record ParsedCommand : Type 0 where
  pub command : Command
  pub slug : String

abbrev pub no_command : ParsedCommand
no_command = record { command = cmd_none; slug = "" }

-- `if cmd, found := matchTrigger(...); found { return cmd }`
abbrev pub or_later : Option ParsedCommand → ParsedCommand → ParsedCommand
or_later (some cmd) later = cmd
or_later none later = later

-- `strings.TrimLeft(rest, ": \t")`
unfoldable pub trim_left : List ℕ → List ℕ
trim_left [] = []
trim_left (c ∷ s) =
    let rest = trim_left s in if nat_eq c b':' || (nat_eq c b' ' || nat_eq c 9) then rest else c ∷ s

-- A letter in either case; U+212A is the other upper case of k.
abbrev pub is_letter : ℕ → ℕ → Bool
is_letter low c = nat_eq c low || (nat_eq (c + 32) low || (nat_eq low b'k' && nat_eq c 8490))

abbrev pub is_word : ℕ → Bool
is_word c =
    (leb b'a' c && leb c b'z')
    || ((leb b'A' c && leb c b'Z') || ((leb b'0' c && leb c b'9') || nat_eq c b'_'))

-- `\b` after the code point `last`
abbrev pub is_boundary : ℕ → List ℕ → Bool
is_boundary last [] = is_word last
is_boundary last (c ∷ s) = if is_word last then not (is_word c) else is_word c

-- `(?i)^verb\b`
unfoldable pub is_verb : ℕ → List ℕ → List ℕ → Bool
is_verb last [] s = is_boundary last s
is_verb last (v ∷ verb) [] = false
is_verb last (v ∷ verb) (c ∷ s) = is_letter v c && is_verb c verb s

-- `verbRE.FindString` and `normalizeVerb` on what it finds; no verb asks for help.
unfoldable pub normalize_verb : List ℕ → Command
unfolding is_verb
normalize_verb rest =
    if is_verb 0 (codes "recheck") rest || is_verb 0 (codes "diff") rest
    then cmd_recheck
    else if is_verb 0 (codes "apply") rest
    then cmd_apply
    else cmd_help

-- `strings.Split(body, "\n")`: the line that is being read, and the others.
unfoldable pub split_lines : String → String → List String
split_lines line String.[] = line ∷ []
split_lines line (String.◌∷◌ c s) =
    let broken = split_lines "" s in
    let longer = split_lines (concat (line ∷ String.◌∷◌ c "" ∷ [])) s in
    if nat_eq (code c) b'\n' then line ∷ broken else longer

module _ (u : Strings) where
  open u use {to_lower, trim_space}

  -- The rest of a line after a trigger.
  abbrev pub after : String → String → List ℕ
  after line trigger = trim_left (codes (slice line (len trigger) (len line)))

  -- `@slug`, `/slug` or `/repo-settings` at the start of a line, in any case.
  unfoldable pub match_trigger : String → String → Option ParsedCommand
  unfolding normalize_verb trim_left
  match_trigger line slug =
      let low = to_lower line in
      let at = concat ("@" ∷ slug ∷ []) in
      let slash = concat ("/" ∷ slug ∷ []) in
      if not (slug == "") && starts_with low at
      then some (record { command = normalize_verb (after line at); slug = slug })
      else if not (slug == "") && starts_with low slash
      then some (record { command = normalize_verb (after line slash); slug = slug })
      else if starts_with low "/repo-settings"
      then some (record { command = normalize_verb (after line "/repo-settings"); slug = slug })
      else none

  -- A blank line and a quoted one are passed over.
  abbrev pub is_passed_over : String → Bool
  is_passed_over trimmed = trimmed == "" || starts_with trimmed ">"

  unfoldable pub command_of_line : String → String → Option ParsedCommand
  unfolding match_trigger
  command_of_line slug line =
      let trimmed = trim_space line in
      if is_passed_over trimmed then none else match_trigger trimmed slug

  unfoldable pub first_command : String → List String → ParsedCommand
  unfolding command_of_line
  first_command slug [] = no_command
  first_command slug (line ∷ lines) =
      or_later (command_of_line slug line) (first_command slug lines)

  unfoldable pub parse_comment : String → String → ParsedCommand
  unfolding first_command split_lines
  parse_comment body bot_slug =
      let found = first_command (to_lower (trim_space bot_slug)) (split_lines "" body) in
      if body == "" then no_command else found

pub record RepoPermission : Type 0 where
  pub permission : String
  pub role_name : String

unfoldable pub can_apply : RepoPermission → Bool
can_apply p = p.permission == "admin" || p.permission == "write"

unfoldable pub help_markdown : String → String
help_markdown slug =
    let name = if slug == "" then "repo-settings" else slug in
    concat (
      "**" ∷ name ∷ "** commands:\n\n- `@" ∷ name
      ∷ " recheck` (alias `diff`) — dry-run this pull request's head and refresh the diff comment.\n- `@"
      ∷ name
      ∷ " apply` — apply the default branch's configuration now. Requires write, maintain or admin permission.\n- `@"
      ∷ name ∷ " help` — show this message.\n" ∷ [])
