-- ===== src/Helm/Release.antt =====
-- What a chart does with its temporary directory and file by the time it ends.
use pulumi_kubernetes.Common.{ℕ, String, ◌≡◌, refl, ◌⊎◌, inl, inr, [], ◌∷◌, ◌++◌, Option, length}
use pulumi_kubernetes.Js.Outcome.{Outcome, Outcome-cases, Exception, ok, throws, run_error}
use pulumi_kubernetes.Options.{ChartOpts, ResourceOptions, chart}
use pulumi_kubernetes.Runtime.{External, Log, throw, component, remove_dir, remove_file}
use pulumi_kubernetes.Yaml.Document.{Resources}
use pulumi_kubernetes.Helm.Chart.{
  catching, keep_outcome, finish, clean_up, exception_text, expand_chart, guarded_chart, new_chart,
}
use pulumi_kubernetes.Helm.Cleanup.{opened}
use pulumi_kubernetes.Helm.Expansion.{prepared, new_chart-guarded}

keep_outcome-log :
    {A : Type 0} (before : Outcome A) (x : Outcome (Unit {0}) × Log)
    → (keep_outcome before x).1 ≡ x.1
keep_outcome-log before (ok _, log) = refl
keep_outcome-log before (throws e, log) = refl

module _ (env : External) (overrides chart_dir : String) where
  -- The log ends in the removal of the directory and then of the file, or in that of the directory
  -- if it throws.
  abbrev pub IsReleased : Log → Type 0
  IsReleased log =
      (before : Log) × ((log ≡ (before ++ remove_dir chart_dir ∷ []) ++ remove_file overrides ∷ [])
        ⊎ ((log ≡ before ++ remove_dir chart_dir ∷ [])
            × ((e : Exception) × (env.remove log ≡ throws e))))

  clean_up-IsReleased : (log : Log) → IsReleased (clean_up env overrides chart_dir log).1
  unfolding clean_up
  clean_up-IsReleased log = elim (Outcome-cases (env.remove (log ++ remove_dir chart_dir ∷ []))) [
    | inl (done, removed) ↦ rw (removed, clean_up) (log, inl refl)
    | inr (e, failed) ↦ rw (failed, clean_up) (log, inr (refl, (e, failed)))
  ]

  pub closing-log :
      (x : Outcome Resources × Log)
      → (finish
          (clean_up env overrides chart_dir)
          (catching (λ e. throw (run_error (exception_text env e))) x)).1
        ≡ (clean_up env overrides chart_dir x.1).1
  closing-log (ok r, log) = keep_outcome-log (ok r) (clean_up env overrides chart_dir log)
  closing-log (throws e, log) =
      keep_outcome-log (throws (run_error (exception_text env e)))
        (clean_up env overrides chart_dir log)

  guarded_chart-IsReleased :
      (release : String) (config : ChartOpts) (self : ℕ) (log : Log)
      → IsReleased (guarded_chart env release config self overrides chart_dir log).1
  unfolding guarded_chart
  guarded_chart-IsReleased release config self log =
      let run = expand_chart env release config self overrides chart_dir log in
      rw (closing-log run) (clean_up-IsReleased run.1)

-- Once its temporary file and directory are made, a chart ends, in whatever way, by removing the
-- directory and then the file; the removal of the file is left out only if that of the directory
-- throws.
pub new_chart-IsReleased :
    (env : External) (release : String) (config : ChartOpts) (opts : Option ResourceOptions)
    (log : Log) (overrides chart_dir : String)
    → env.component
        (log ++ component "kubernetes:helm.sh/v2:Chart" release (chart config) opts ∷ [])
      ≡ ok tt
    → env.file_sync (opened release config opts log) ≡ ok overrides
    → env.dir_sync (prepared release config opts log) ≡ ok chart_dir
    → IsReleased env overrides chart_dir (new_chart env release config opts log).1
new_chart-IsReleased env release config opts log overrides chart_dir made file dir =
    let run =
      guarded_chart env release config (length log) overrides chart_dir
        (prepared release config opts log) in
    rw
      (new_chart-guarded env release config opts log overrides chart_dir run.0 run.1 made file dir
        refl)
      (guarded_chart-IsReleased env overrides chart_dir release config (length log)
        (prepared release config opts log))
