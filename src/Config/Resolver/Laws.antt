-- ===== src/Config/Resolver/Laws.antt =====
-- `Merge` and `Resolve` of internal/config/resolver.go over whole lists of layers.
use repositories_settings.Base.{
  String, ◌≡◌, refl, sym, ◌∙◌, Bool, true, false, ◌&&◌, Option, none, some, List, [], ◌∷◌, ◌++◌,
  arith, or_keep, is_some, All, lookup, lookup-insert, if◌then◌else◌, ◌==◌,
}
use repositories_settings.Config.Schema.{Settings}
use repositories_settings.Config.Sections.{Section, SectionType, get, key, is_set}
use repositories_settings.Config.Resolver.{
  empty_settings, clone_shallow, overlay, merge, Layer, Provenance, mark, mark_all, resolve_layer,
  resolve_from, resolve,
}

pub get-overlay :
    (r : Section) (s out : Settings) → get r (overlay s out) ≡ or_keep (get r s) (get r out)
unfolding overlay
get-overlay Section.repo s out = refl
get-overlay _ s out = refl

or_keep_assoc : {A : Type 0} (x y z : Option A) → or_keep x (or_keep y z) ≡ or_keep (or_keep x y) z
or_keep_assoc x y z = ground arith

overlay_assoc : (a b c : Settings) → overlay c (overlay b a) ≡ overlay (overlay c b) a
unfolding overlay
overlay_assoc a b c = simp or_keep_assoc

get-empty : (r : Section) → get r empty_settings ≡ none
get-empty Section.repo = refl
get-empty _ = refl

overlay-empty : (a : Settings) → overlay empty_settings a ≡ a
unfolding overlay
overlay-empty a = refl

merge-eq-overlay : (a b : Option Settings) → merge a b ≡ overlay (clone_shallow b) (clone_shallow a)
unfolding merge
merge-eq-overlay a none = sym (overlay-empty (clone_shallow a))
merge-eq-overlay a (some b) = refl

-- Merging is associative, nil settings included: three tiers can be folded from either end.
pub merge_assoc :
    (a b c : Option Settings) → merge (some (merge a b)) c ≡ merge a (some (merge b c))
merge_assoc a b c =
    simp merge-eq-overlay
      (unfold clone_shallow in overlay_assoc (clone_shallow a) (clone_shallow b) (clone_shallow c))

lookup-mark :
    {A : Type 0} (o : Option A) (k j source : String) (p : Provenance)
    → lookup j (mark o k source p) ≡ (if k == j && is_some o then some source else lookup j p)
unfolding mark
lookup-mark none k j source p = ground arith
lookup-mark (some x) k j source p = rw lookup-insert (ground arith)

-- The provenance of a section changes exactly when the layer sets it.
lookup-mark_all :
    (r : Section) (s : Settings) (source : String) (p : Provenance)
    → lookup (key r) (mark_all s source p) ≡ (if is_set r s then some source else lookup (key r) p)
unfolding mark_all
lookup-mark_all Section.repo s source p = simp lookup-mark
lookup-mark_all _ s source p = simp lookup-mark

abbrev pub layer_sets : Section → Layer → Bool
layer_sets r layer = elim layer.settings [ none ↦ false | some s ↦ is_set r s ]

-- What the settings and the provenance say of a section.
abbrev Shows :
    (r : Section) → Settings × Provenance → Option (SectionType r) → Option String → Type 0
Shows r acc value source = (get r acc.0 ≡ value) × (lookup (key r) acc.1 ≡ source)

module _ (r : Section) (acc : Settings × Provenance) (source : String) where
  -- A layer that does not set a section leaves it and its provenance alone.
  layer_unset :
      (o : Option Settings)
      → layer_sets r (record { source = source; settings = o }) ≡ false
      → Shows r
          (resolve_layer acc (record { source = source; settings = o }))
          (get r acc.0)
          (lookup (key r) acc.1)
  unfolding resolve_layer
  layer_unset none h = (refl, refl)
  layer_unset (some s) h =
      (get-overlay r s acc.0 ∙ ground arith, lookup-mark_all r s source acc.1 ∙ rw h)

  -- A layer that sets a section supplies it, and is its provenance.
  layer_set :
      (s : Settings)
      → is_set r s ≡ true
      → Shows r
          (resolve_layer acc (record { source = source; settings = some s }))
          (get r s)
          (some source)
  unfolding resolve_layer
  layer_set s h = (get-overlay r s acc.0 ∙ ground arith, lookup-mark_all r s source acc.1 ∙ rw h)

resolve_from-unset :
    (r : Section) (acc : Settings × Provenance) (layers : List Layer)
    → All (λ layer. layer_sets r layer ≡ false) layers
    → Shows r (resolve_from acc layers) (get r acc.0) (lookup (key r) acc.1)
unfolding resolve_from
resolve_from-unset r acc [] h = (refl, refl)
resolve_from-unset r acc (layer ∷ layers) h =
    let rest = resolve_from-unset r (resolve_layer acc layer) layers h.1 in
    let this = layer_unset r acc layer.source layer.settings h.0 in
    (rest.0 ∙ this.0, rest.1 ∙ this.1)

resolve_from-append :
    (acc : Settings × Provenance) (xs ys : List Layer)
    → resolve_from acc (xs ++ ys) ≡ resolve_from (resolve_from acc xs) ys
unfolding resolve_from
resolve_from-append acc [] ys = refl
resolve_from-append acc (x ∷ xs) ys = resolve_from-append (resolve_layer acc x) xs ys

-- The last layer that sets a section supplies its value, and the provenance names that layer:
-- whatever the layers before it say, and where the layers after it do not set the section.
pub resolve_last_wins :
    (r : Section) (before after : List Layer) (source : String) (s : Settings)
    → is_set r s ≡ true
    → All (λ layer. layer_sets r layer ≡ false) after
    → let layer : Layer = record { source = source; settings = some s } in
      let (out, prov) = resolve (before ++ layer ∷ after) in
      (get r out ≡ get r s) × (lookup (key r) prov ≡ some source)
unfolding resolve
resolve_last_wins r before after source s h unset =
    let start : Settings × Provenance = (empty_settings, []) in
    let layer : Layer = record { source = source; settings = some s } in
    let seen = resolve_from start before in
    let rest = resolve_from-unset r (resolve_layer seen layer) after unset in
    let this = layer_set r seen source s h in
    rw resolve_from-append (unfold resolve_from in (rest.0 ∙ this.0, rest.1 ∙ this.1))

-- A section that no layer sets stays unmanaged, and has no provenance.
pub resolve_unset :
    (r : Section) (layers : List Layer)
    → All (λ layer. layer_sets r layer ≡ false) layers
    → (get r (resolve layers).0 ≡ none) × (lookup (key r) (resolve layers).1 ≡ none)
unfolding resolve lookup
resolve_unset r layers h =
    let rest = resolve_from-unset r (empty_settings, []) layers h in (rest.0 ∙ get-empty r, rest.1)
