-- ===== src/Tests/Schedule.antt =====
-- A run of `Map` of internal/conc/conc.go from its start to its end, one item after another.
use repositories_settings.Base.{
  ℕ, ◌+◌, ◌<◌, ◌≡◌, refl, sym, ap, subst, false, List, [], ◌∷◌, ◌++◌, map, arith,
}
use repositories_settings.Conc.{
  Status, Pool, one_running, one_queued, busy, waiting, fresh, start, feed, finish, Reach, here,
  next,
}

busy-fresh : {T : Type 0} (R : Type 0) (xs : List T) → busy (fresh {R = R} xs) ≡ 0
busy-fresh R [] = refl
busy-fresh R (x ∷ xs) = omega (arith, busy-fresh R xs)

module _ {T R : Type 0} where
  counts-append :
      (before after : List (T × Status R)) (item : T) (s : Status R)
      → (waiting (before ++ (item, s) ∷ after) ≡ waiting before + (one_queued s + waiting after))
        × busy (before ++ (item, s) ∷ after) ≡ busy before + (one_running s + busy after)
  counts-append [] after item s = (omega arith, omega arith)
  counts-append ((x, r) ∷ before) after item s =
      let (w, b) = counts-append before after item s in (omega (arith, w), omega (arith, b))

  shift :
      (before : List (T × Status R)) (j : T × Status R) (js : List (T × Status R))
      → (before ++ j ∷ []) ++ js ≡ before ++ j ∷ js
  shift [] j js = refl
  shift (b ∷ before) j js = ap (◌∷◌ b) (shift before j js)

  module _ (fn : T → R) (workers : ℕ) (p : Pool T R) where
    abbrev pub all_results : List T → List (T × Status R)
    all_results items = map (λ item. (item, Status.finished (fn item))) items

    abbrev Reaches : List (T × Status R) → Type 0
    Reaches jobs = Reach fn workers p (record { cancelled = false; jobs = jobs })

    run_next :
        (before after : List (T × Status R)) (x : T)
        → waiting before ≡ 0
        → busy before + busy after < workers
        → Reaches (before ++ (x, Status.queued) ∷ after)
        → Reaches (before ++ (x, Status.finished (fn x)) ∷ after)
    run_next before after x w b r =
        next (next r (feed false before after x w b)) (finish false before after x)

    run_from :
        (before : List (T × Status R))
        → waiting before ≡ 0
        → busy before ≡ 0
        → 0 < workers
        → (rest : List T) → Reaches (before ++ fresh rest)
        → Reaches (before ++ all_results rest)
    run_from before w b n [] r = r
    run_from before w b n (x ∷ rest) r =
        let j : T × Status R = (x, Status.finished (fn x)) in
        let free : busy before + busy (fresh {R = R} rest) < workers =
          omega (arith, n, b, busy-fresh R rest) in
        let done = run_next before (fresh rest) x w free r in
        let (w', b') = counts-append before [] x (Status.finished (fn x)) in
        subst Reaches (shift before j (all_results rest)) (
          run_from (before ++ j ∷ []) (omega (arith, w', w)) (omega (arith, b', b)) n rest
            (subst Reaches (sym (shift before j (fresh rest))) done))

-- The run that gives each item to a worker when the one before is finished.
pub one_by_one :
    {T R : Type 0}
    → (fn : T → R) (workers : ℕ) (items : List T) → 0 < workers
    → Reach fn workers
        (start items)
        (record { cancelled = false; jobs = map (λ item. (item, Status.finished (fn item))) items })
unfolding start
one_by_one fn workers items n = run_from fn workers (start items) [] refl refl n items here
