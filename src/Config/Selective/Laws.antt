-- ===== src/Config/Selective/Laws.antt =====
-- internal/config/selective.go: the keys of a push and the settings narrowed to them, together.
use repositories_settings.Base.{
  String, ◌≡◌, refl, ◌∙◌, Bool, false, ◌||◌, none, some, List, [], ◌∷◌, ◌++◌, arith, Option-cases,
  inl, inr, any, contains, contains-add, add,
}
use repositories_settings.Config.Schema.{Settings}
use repositories_settings.Config.Sections.{Section, get, key}
use repositories_settings.Config.Selective.{
  keys_of, add_all, affected_from, affected_keys, filter, keep_if,
}

-- Narrowing keeps a section whose key is in the set as it was, and drops every other one.
pub get-filter :
    (r : Section) (s : Settings) (keys : List String) {out : Settings}
    → filter (some s) (some keys) ≡ some out
    → get r out ≡ keep_if (contains keys (key r)) (get r s)
unfolding filter
get-filter Section.repo s keys h = ground arith
get-filter _ s keys h = ground arith

-- A changed file can touch the section of a key.
abbrev pub touches : String → String → Bool
touches k f = elim (keys_of f) [ none ↦ false | some mapped ↦ contains mapped k ]

contains-add_all :
    (k : String) (ks keys : List String)
    → contains (add_all ks keys) k ≡ (contains ks k || contains keys k)
unfolding contains
contains-add_all k [] keys = refl
contains-add_all k (j ∷ ks) keys =
    rw (contains-add_all k ks (add j keys), contains-add) (ground arith)

affected_from_lem :
    (k : String) (keys fs : List String) {out : List String}
    → affected_from keys fs ≡ some out
    → contains out k ≡ (any (touches k) fs || contains keys k)
unfolding affected_from
affected_from_lem k keys [] h = ground arith
affected_from_lem k keys (f ∷ fs) {out = out} h = elim (Option-cases (keys_of f)) [
  | inl unknown ↦ absurd (cc (unknown, h))
  | inr (mapped, known) ↦
      let rest = affected_from_lem k (add_all mapped keys) fs (rw (known, affected_from) at h) in
      ground (arith, known, rest, contains-add_all k mapped keys)
]

affected_keys_inv :
    (changed : List String) {keys : List String}
    → affected_keys changed ≡ some keys
    → affected_from [] changed ≡ some keys
unfolding affected_keys
affected_keys_inv [] h = cc
affected_keys_inv (f ∷ fs) h = ground arith

-- When the changed files narrow the run to a set of keys, a key is in the set exactly when some
-- changed file maps to it: nothing that was touched is left out, and nothing else is run.
pub affected_keys_exact :
    (changed : List String) {keys : List String} (k : String)
    → affected_keys changed ≡ some keys
    → contains keys k ≡ any (touches k) changed
unfolding contains
affected_keys_exact changed k h =
    affected_from_lem k [] changed (affected_keys_inv changed h) ∙ ground arith

affected_from_unknown :
    (keys before after : List String) (f : String)
    → keys_of f ≡ none
    → affected_from keys (before ++ f ∷ after) ≡ none
unfolding affected_from
affected_from_unknown keys [] after f h = ground arith
affected_from_unknown keys (x ∷ before) after f h = elim (Option-cases (keys_of x)) [
  | inl unknown ↦ ground arith
  | inr (mapped, known) ↦
      let rest = affected_from_unknown (add_all mapped keys) before after f h in ground arith
]

-- A changed file that is no settings file makes the run a full one.
pub affected_keys_unknown :
    (before after : List String) (f : String)
    → keys_of f ≡ none
    → affected_keys (before ++ f ∷ after) ≡ none
unfolding affected_keys
affected_keys_unknown [] after f h = ground (arith, affected_from_unknown [] [] after f h)
affected_keys_unknown (x ∷ before) after f h =
    ground (arith, affected_from_unknown [] (x ∷ before) after f h)

-- A narrowed run keeps a section as it was if a changed file maps to its key, and leaves it
-- unmanaged if none does.
pub filter-affected_keys :
    (r : Section) (s : Settings) (changed keys : List String) {out : Settings}
    → affected_keys changed ≡ some keys
    → filter (some s) (affected_keys changed) ≡ some out
    → get r out ≡ keep_if (any (touches (key r)) changed) (get r s)
filter-affected_keys r s changed keys h e =
    get-filter r s keys (cc (h, e)) ∙ rw (affected_keys_exact changed (key r) h)
