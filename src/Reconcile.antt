-- ===== src/Reconcile.antt =====
-- `reconcile` and `main` of __main__.py: one pass of the reconciler, from its arguments to the exit code
-- and the report that it prints. The two reads of the daemon, the thread pool and the text of the
-- bundle file are arguments; `json.dumps` of the report is left out.
pub mod Observed
pub mod Owners
pub mod Converge
use mathlib.Core.Path.{subst}
use bay.Prelude.{
  Bool-cases, ℕ, String, Bool, true, false, not, ◌≡◌, ◌↔◌, ◌⊎◌, inl, inr, refl, Option, none, some,
  List, [], ◌∷◌, map, if◌then◌else◌, arith,
}
use bay.Prelude.Assoc.{Assoc, contains, keep}
use bay.Prelude.Result.{Exn, Result, ok, err, ◌>>=◌}
use bay.Prelude.Text.{concat, strip_prefix}
use bay.Json.{Python}
use bay.Model.{
  ContainerState, ReconcilerConfig, ActionResult, ReportDict, kind, summary, to_dict, report_ok,
}
use bay.Planner.{plan}
use bay.Planner.Describe.{Entry, describe}
use bay.Bundle.Settings.{Payload, Loaded, load_bundle}
use bay.Executor.Phases.{Runner, execute}
use bay.Status.{Seen, Reads, state_after}

-- The box as the client shows it: a read for a managed label, the pool for a config, and the read
-- behind the pass with those of the images.
pub record Host : Type 0 where
  pub observe : String → Result (Assoc ContainerState)
  pub runner : ReconcilerConfig → Runner
  pub observe_after : String → Result (Assoc ContainerState)
  pub reads : Reads

-- What is printed.
pub data Output : Type 0 where
  refused : String → Output
  planned : Assoc ℕ → List String → List Entry → Output
  applied : Assoc ℕ → ReportDict → Assoc Seen → Output

-- `out["ok"]`
abbrev pub says_ok : Output → Bool
says_ok (refused e) = false
says_ok (planned s a c) = true
says_ok (applied s d c) = d.ok

abbrev pub max_workers : ℕ
max_workers = 8

-- `[a for a in args if not a.startswith("--")]`
abbrev not_option : String → Bool
not_option a = elim (strip_prefix "--" a) [ none ↦ true | some rest ↦ false ]

unfoldable pub positionals : List String → List String
unfolding keep
positionals args = keep not_option args

module _ (py : Python) (box : Host) where
  -- `reconcile` behind the first read
  unfoldable pub pass : Loaded → Bool → Assoc ContainerState → Result (ℕ × Output)
  pass bundle true observed =
      let the_plan = plan bundle.containers observed bundle.remove_orphans in
      describe py the_plan bundle.containers observed >>= λ entries.
      ok (0, planned (summary the_plan) (map kind the_plan) entries)
  pass bundle false observed =
      let the_plan = plan bundle.containers observed bundle.remove_orphans in
      let results = execute (box.runner bundle.config) max_workers the_plan in
      ok (
        (if report_ok results then 0 else 1),
        applied (summary the_plan) (to_dict results)
            (state_after box.reads (box.observe_after bundle.managed) bundle.containers),
      )

  -- `reconcile`
  unfoldable pub reconcile : Loaded → Bool → Result (ℕ × Output)
  unfolding pass
  reconcile bundle plan_only = box.observe bundle.managed >>= pass bundle plan_only

  -- the texts of the classes that `except ValueError` catches here
  unfoldable pub is_value_error : Exn → Bool
  is_value_error e =
      contains ("ValueError" ∷ "JSONDecodeError" ∷ "UnicodeDecodeError" ∷ []) e.class_name

  -- `except ValueError`
  unfoldable pub on_bundle : Bool → Result Loaded → Result (ℕ × Output)
  unfolding is_value_error
  on_bundle plan_only (ok bundle) = reconcile bundle plan_only
  on_bundle plan_only (err e) =
      if is_value_error e
      then ok (2, refused (concat ("invalid bundle: " ∷ e.message ∷ [])))
      else err e

  -- `main` behind the split of its arguments; `read` opens a file and parses it
  unfoldable pub run : (String → Result Payload) → Bool → List String → Result (ℕ × Output)
  unfolding on_bundle
  run read plan_only [] = ok (2, refused "usage: bay_reconcile <bundle.json> [--plan-only]")
  run read plan_only (path ∷ l) = on_bundle plan_only (read path >>= load_bundle py)

  -- `main`: its exit code and what it prints, or the exception that ends it
  unfoldable pub main : (String → Result Payload) → List String → Result (ℕ × Output)
  unfolding run positionals
  main read args = run read (contains args "--plan-only") (positionals args)

  -- the exit code says what the report says
  abbrev Agrees : Result (ℕ × Output) → Type 0
  Agrees (err e) = Unit
  Agrees (ok (code, report)) = (code ≡ 0) ↔ (says_ok report ≡ true)

  bind-Agrees :
      {A : Type 0} (r : Result A) (f : A → Result (ℕ × Output))
      → ((a : A) → Agrees (f a))
      → Agrees (r >>= f)
  bind-Agrees (err e) f h = tt
  bind-Agrees (ok a) f h = h a

  pass-Agrees :
      (bundle : Loaded) (plan_only : Bool) (observed : Assoc ContainerState)
      → Agrees (pass bundle plan_only observed)
  unfolding pass
  pass-Agrees bundle true observed =
      bind-Agrees (describe py _ bundle.containers observed) _ (λ entries. (λ h. refl, λ h. refl))
  pass-Agrees bundle false observed = unfold to_dict in ground arith

  on_bundle-Agrees : (plan_only : Bool) (r : Result Loaded) → Agrees (on_bundle plan_only r)
  unfolding on_bundle reconcile
  on_bundle-Agrees plan_only (ok bundle) =
      bind-Agrees (box.observe bundle.managed) _ (pass-Agrees bundle plan_only)
  on_bundle-Agrees plan_only (err e) = elim (Bool-cases (is_value_error e)) [
    | inl t ↦ rw t (ground arith)
    | inr t ↦ rw t tt
  ]

  run-Agrees :
      (read : String → Result Payload) (plan_only : Bool) (paths : List String)
      → Agrees (run read plan_only paths)
  unfolding run
  run-Agrees read plan_only [] = ground arith
  run-Agrees read plan_only (path ∷ l) = on_bundle-Agrees plan_only (read path >>= load_bundle py)

  -- Where the entry point ends without an exception, its exit code is 0 exactly when the report that
  -- it prints says `ok`: for a usage error, a bundle that is not valid, a plan and a pass that was
  -- executed.
  pub main-code :
      (read : String → Result Payload) (args : List String) (code : ℕ) (report : Output)
      → main read args ≡ ok (code, report)
      → (code ≡ 0) ↔ (says_ok report ≡ true)
  unfolding main
  main-code read args code report e =
      subst Agrees e (run-Agrees read (contains args "--plan-only") (positionals args))
