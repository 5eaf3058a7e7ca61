-- ===== src/Passes/Manager/Stops.antt =====
-- RunAll stops at the first pass that fails.
use re_wizard.Prelude.{
  String, refl, inl, inr, Bool, List, [], Bool-cases, ◌≡◌, ◌∷◌, ◌++◌, if◌then◌else◌, string_key,
}
use re_wizard.Passes.Manager.{Actions, and_then, run_passes}

module _ {C : Type 0} (actions : String → Actions C) where
  -- PreRun, Run and PostRun of a pass.
  abbrev outcome : String → C × Bool → C × Bool
  outcome name r = let a = actions name in and_then (and_then (a.pre_run r.0) a.run) a.post_run

  -- Where a first group of passes does not succeed, the passes behind it are not run: the context
  -- and the result are those of the first group. Where it does, they go on from its context.
  pub run_passes-append :
      (name : String) (names later : List String) (r : C × Bool)
      → run_passes actions (name ∷ (names ++ later)) r ≡ (
          if (run_passes actions (name ∷ names) r).1
          then run_passes actions later (run_passes actions (name ∷ names) r)
          else run_passes actions (name ∷ names) r)
  unfolding run_passes
  run_passes-append name [] later r = elim (Bool-cases (outcome name r).1) [
    | inl went ↦ rw went (rw went refl)
    | inr failed ↦ rw failed (rw failed refl)
  ]
  run_passes-append name (n ∷ names) later r =
      let rest = run_passes-append n names later (outcome name r) in
      elim (Bool-cases (outcome name r).1) [
        | inl went ↦ rw went rest
        | inr failed ↦ rw failed (rw failed refl)
      ]
