-- ===== src/Conc.antt =====
-- internal/conc/conc.go: `Map` runs a function over items with at most n workers. An interleaving of
-- the feeder, the workers and a cancelled context is a sequence of steps; each item carries where it
-- stands, in the order of the input.
pub mod Outcome
use repositories_settings.Base.{
  ℕ, suc, ◌+◌, ◌<◌, ◌≡◌, Bool, true, false, List, [], ◌∷◌, ◌++◌, map, length, leb, if◌then◌else◌,
}

abbrev pub default_applier_concurrency : ℕ
default_applier_concurrency = 5

-- An item waits for the feeder, is with a worker, has its result, or was skipped with `ctx.Err()`.
pub data Status (R : Type 0) : Type 0 where
  queued running skipped : Status R
  finished : R → Status R

module _ {R : Type 0} where
  abbrev pub one_running : Status R → ℕ
  one_running Status.running = 1
  one_running _ = 0

  abbrev pub one_queued : Status R → ℕ
  one_queued Status.queued = 1
  one_queued _ = 0

  -- The feeder's reaction to a cancelled context: what it has not handed out is skipped.
  abbrev drain_one : Status R → Status R
  drain_one Status.queued = Status.skipped
  drain_one s = s

module _ {T R : Type 0} where
  -- How many workers are busy.
  abbrev pub busy : List (T × Status R) → ℕ
  busy [] = 0
  busy ((item, s) ∷ js) = one_running s + busy js

  -- How many items wait.
  abbrev pub waiting : List (T × Status R) → ℕ
  waiting [] = 0
  waiting ((item, s) ∷ js) = one_queued s + waiting js

  abbrev pub drain : List (T × Status R) → List (T × Status R)
  drain [] = []
  drain ((item, s) ∷ js) = (item, drain_one s) ∷ drain js

  -- Every item queued.
  abbrev pub fresh : List T → List (T × Status R)
  fresh [] = []
  fresh (item ∷ items) = (item, Status.queued) ∷ fresh items

pub record Pool (T R : Type 0) : Type 0 where
  pub cancelled : Bool
  pub jobs : List (T × Status R)

-- `if n < 1 { n = 1 }`, and no more workers than items.
abbrev pub worker_count : ℕ → ℕ → ℕ
worker_count n len = let m = if leb 1 n then n else 1 in if leb m len then m else len

unfoldable pub start : {T R : Type 0} → List T → Pool T R
start items = record { cancelled = false; jobs = fresh items }

module _ {T R : Type 0} (fn : T → R) (workers : ℕ) where
  pub data Step : Pool T R → Pool T R → Type 0 where
    -- the caller's context ends
    cancel : (p : Pool T R) → Step p (record p { cancelled = true })
    -- the feeder hands the first waiting item to a free worker
    feed :
        (c : Bool) (before after : List (T × Status R)) (item : T)
        → waiting before ≡ 0
        → busy before + busy after < workers
        → Step
            (record { cancelled = c; jobs = before ++ (item, Status.queued) ∷ after })
            (record { cancelled = c; jobs = before ++ (item, Status.running) ∷ after })
    -- the feeder sees the end of the context
    stop :
        (jobs : List (T × Status R))
        → Step
            (record { cancelled = true; jobs = jobs })
            (record { cancelled = true; jobs = drain jobs })
    -- a worker runs the function on its item
    finish :
        (c : Bool) (before after : List (T × Status R)) (item : T)
        → Step
            (record { cancelled = c; jobs = before ++ (item, Status.running) ∷ after })
            (record { cancelled = c; jobs = before ++ (item, Status.finished (fn item)) ∷ after })
    -- a worker finds the context ended before it calls the function
    skip :
        (before after : List (T × Status R)) (item : T)
        → Step
            (record { cancelled = true; jobs = before ++ (item, Status.running) ∷ after })
            (record { cancelled = true; jobs = before ++ (item, Status.skipped) ∷ after })

  pub data Reach (p : Pool T R) : Pool T R → Type 0 where
    here : Reach p p
    next : {q r : Pool T R} → Reach p q → Step q r → Reach p r
