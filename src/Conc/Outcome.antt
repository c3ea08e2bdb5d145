-- ===== src/Conc/Outcome.antt =====
-- The results of `Map` of internal/conc/conc.go under every interleaving.
use repositories_settings.Base.{
  ℕ, ◌+◌, ◌≤◌, ◌≡◌, refl, ap, subst, ◌∙◌, Bool, true, false, List, [], ◌∷◌, ◌++◌, map, arith, All,
}
use repositories_settings.Conc.{
  Status, Pool, busy, waiting, drain, fresh, start, Step, cancel, feed, stop, finish, skip, Reach,
  here, next, one_running,
}

module _ {T R : Type 0} where
  abbrev pub items_of : List (T × Status R) → List T
  items_of [] = []
  items_of ((item, s) ∷ js) = item ∷ items_of js

module _ {T R : Type 0} (fn : T → R) where
  -- A result is that of the function on the item, and an item is skipped only after a cancel.
  abbrev pub IsRight : Bool → T × Status R → Type 0
  IsRight c (item, Status.finished r) = r ≡ fn item
  IsRight c (item, Status.skipped) = c ≡ true
  IsRight c (item, s) = Unit

  IsRight-cancel :
      (c : Bool) (js : List (T × Status R)) → All (IsRight c) js → All (IsRight true) js
  IsRight-cancel c [] h = tt
  IsRight-cancel c ((item, Status.skipped) ∷ js) h = (refl, IsRight-cancel c js h.1)
  IsRight-cancel c ((item, Status.finished r) ∷ js) h = (h.0, IsRight-cancel c js h.1)
  IsRight-cancel c ((item, Status.queued) ∷ js) h = (tt, IsRight-cancel c js h.1)
  IsRight-cancel c ((item, Status.running) ∷ js) h = (tt, IsRight-cancel c js h.1)

  IsRight-drain : (js : List (T × Status R)) → All (IsRight true) js → All (IsRight true) (drain js)
  IsRight-drain [] h = tt
  IsRight-drain ((item, Status.queued) ∷ js) h = (refl, IsRight-drain js h.1)
  IsRight-drain ((item, Status.skipped) ∷ js) h = (h.0, IsRight-drain js h.1)
  IsRight-drain ((item, Status.finished r) ∷ js) h = (h.0, IsRight-drain js h.1)
  IsRight-drain ((item, Status.running) ∷ js) h = (tt, IsRight-drain js h.1)

  -- Changing one entry to a right one keeps the others.
  IsRight-swap :
      (c : Bool) (before after : List (T × Status R)) (item : T) (s t : Status R)
      → IsRight c (item, t)
      → All (IsRight c) (before ++ (item, s) ∷ after)
      → All (IsRight c) (before ++ (item, t) ∷ after)
  IsRight-swap c [] after item s t k h = (k, h.1)
  IsRight-swap c (j ∷ before) after item s t k h = (h.0, IsRight-swap c before after item s t k h.1)

  items_of-swap :
      (before after : List (T × Status R)) (item : T) (s t : Status R)
      → items_of (before ++ (item, t) ∷ after) ≡ items_of (before ++ (item, s) ∷ after)
  items_of-swap [] after item s t = refl
  items_of-swap ((x, r) ∷ before) after item s t = ap (◌∷◌ x) (items_of-swap before after item s t)

  items_of-drain : (js : List (T × Status R)) → items_of (drain js) ≡ items_of js
  items_of-drain [] = refl
  items_of-drain ((x, s) ∷ js) = ap (◌∷◌ x) (items_of-drain js)

  busy-swap :
      (before after : List (T × Status R)) (item : T) (s : Status R)
      → busy (before ++ (item, s) ∷ after) ≡ busy before + (one_running s + busy after)
  busy-swap [] after item s = omega arith
  busy-swap ((x, r) ∷ before) after item s = omega (arith, busy-swap before after item s)

  busy-drain : (js : List (T × Status R)) → busy (drain js) ≡ busy js
  busy-drain [] = refl
  busy-drain ((x, Status.queued) ∷ js) = omega (arith, busy-drain js)
  busy-drain ((x, Status.running) ∷ js) = omega (arith, busy-drain js)
  busy-drain ((x, Status.skipped) ∷ js) = omega (arith, busy-drain js)
  busy-drain ((x, Status.finished r) ∷ js) = omega (arith, busy-drain js)

  module _ (workers : ℕ) (items : List T) where
    -- What holds between any two steps.
    pub record Inv (p : Pool T R) : Type 0 where
      pub right : All (IsRight p.cancelled) p.jobs
      pub ordered : items_of p.jobs ≡ items
      pub bounded : busy p.jobs ≤ workers

    Inv-Step : {p q : Pool T R} → Step fn workers p q → Inv p → Inv q
    Inv-Step (cancel p) h = record {
      right = IsRight-cancel p.cancelled p.jobs h.right;
      ordered = h.ordered;
      bounded = h.bounded;
    }
    Inv-Step (feed c before after item w b) h = record {
      right = IsRight-swap c before after item Status.queued Status.running tt h.right;
      ordered = items_of-swap before after item Status.queued Status.running ∙ h.ordered;
      bounded = omega (arith, busy-swap before after item Status.running);
    }
    Inv-Step (stop jobs) h = record {
      right = IsRight-drain jobs h.right;
      ordered = items_of-drain jobs ∙ h.ordered;
      bounded = omega (arith, busy-drain jobs, h.bounded);
    }
    Inv-Step (finish c before after item) h = record {
      right =
          IsRight-swap c before after item Status.running (Status.finished (fn item)) refl h.right;
      ordered =
          items_of-swap before after item Status.running (Status.finished (fn item)) ∙ h.ordered;
      bounded = omega (
        arith,
        busy-swap before after item Status.running,
        busy-swap before after item (Status.finished (fn item)),
        h.bounded,
      );
    }
    Inv-Step (skip before after item) h = record {
      right = IsRight-swap true before after item Status.running Status.skipped refl h.right;
      ordered = items_of-swap before after item Status.running Status.skipped ∙ h.ordered;
      bounded = omega (
        arith,
        busy-swap before after item Status.running,
        busy-swap before after item Status.skipped,
        h.bounded,
      );
    }

    fresh-IsRight : (xs : List T) → All (IsRight false) (fresh xs)
    fresh-IsRight [] = tt
    fresh-IsRight (x ∷ xs) = (tt, fresh-IsRight xs)

    items_of-fresh : (xs : List T) → items_of (fresh {R = R} xs) ≡ xs
    items_of-fresh [] = refl
    items_of-fresh (x ∷ xs) = ap (◌∷◌ x) (items_of-fresh xs)

    busy-fresh : (xs : List T) → busy (fresh {R = R} xs) ≡ 0
    busy-fresh [] = refl
    busy-fresh (x ∷ xs) = omega (arith, busy-fresh xs)

    Inv-Reach : {p : Pool T R} → Reach fn workers (start items) p → Inv p
    unfolding start
    Inv-Reach here = record {
      right = fresh-IsRight items;
      ordered = items_of-fresh items;
      bounded = omega (arith, busy-fresh items);
    }
    Inv-Reach (next r s) = Inv-Step s (Inv-Reach r)

  finished_jobs :
      (js : List (T × Status R))
      → waiting js ≡ 0
      → busy js ≡ 0
      → All (IsRight false) js
      → js ≡ map (λ item. (item, Status.finished (fn item))) (items_of js)
  finished_jobs [] w b h = refl
  finished_jobs ((x, Status.finished r) ∷ js) w b h =
      cc (h.0, finished_jobs js (omega (arith, w)) (omega (arith, b)) h.1)
  finished_jobs ((x, Status.queued) ∷ js) w b h = absurd (omega arith)
  finished_jobs ((x, Status.running) ∷ js) w b h = absurd (omega arith)
  finished_jobs ((x, Status.skipped) ∷ js) w b h = cc (h.0)

-- Whatever the interleaving of the feeder, the workers and a cancel: never more than `workers` calls
-- are in flight, the entries stand in the order of the input, each result is that of the function on
-- the entry's item, and an item is skipped only when the context was cancelled.
pub map_safe :
    {T R : Type 0}
    → (fn : T → R) (workers : ℕ) (items : List T) (p : Pool T R) → Reach fn workers (start items) p
    → busy p.jobs ≤ workers × items_of p.jobs ≡ items × All (IsRight fn p.cancelled) p.jobs
map_safe fn workers items p r =
    let h = Inv-Reach fn workers items r in (h.bounded, h.ordered, h.right)

-- When no context was cancelled and no item waits or is with a worker, every slot holds the result
-- of the function on the item of the same position.
pub map_complete :
    {T R : Type 0}
    → (fn : T → R) (workers : ℕ) (items : List T) (p : Pool T R) → Reach fn workers (start items) p
    → p.cancelled ≡ false
    → waiting p.jobs ≡ 0
    → busy p.jobs ≡ 0
    → p.jobs ≡ map (λ item. (item, Status.finished (fn item))) items
map_complete fn workers items p r c w b =
    let h = Inv-Reach fn workers items r in
    finished_jobs fn p.jobs w b (subst (λ d. All (IsRight fn d) p.jobs) c h.right)
    ∙ ap (map (λ item. (item, Status.finished (fn item)))) h.ordered
