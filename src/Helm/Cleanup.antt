-- ===== src/Helm/Cleanup.antt =====
-- What a chart leaves behind, whether it is expanded or not.
use pulumi_kubernetes.Common.{
  ℕ, String, ◌≡◌, refl, ap, List, [], ◌∷◌, ◌++◌, append-nil, Option, some, ◌<>◌,
}
use pulumi_kubernetes.Js.Outcome.{Outcome, ok, throws, Exception, run_error}
use pulumi_kubernetes.Options.{ChartOpts, ResourceOptions, chart, many}
use pulumi_kubernetes.Runtime.{
  External, Log, throw, component, file_sync, dir_sync, remove_dir, remove_file, exec_sync,
  write_file,
}
use pulumi_kubernetes.Yaml.Document.{Resources, parent_of, new_component, parse_yaml_document}
use pulumi_kubernetes.Yaml.Document.Texts.{parse-texts}
use pulumi_kubernetes.Yaml.Object.{or_empty}
use pulumi_kubernetes.Js.Value.{Value}
use pulumi_kubernetes.Js.Json.{stringify}
use pulumi_kubernetes.Helm.Fetch.{fetch_command, fetch}
use pulumi_kubernetes.Helm.Chart.{
  expand_chart, guarded_chart, clean_up, exception_text, new_chart, template_command, values_of,
  chart_fetch_opts, catching, finish,
}

-- An exception comes out as a `RunError` with its text.
abbrev pub as_run_error : {A : Type 0} → External → Outcome A → Outcome A
as_run_error env (ok a) = ok a
as_run_error env (throws e) = throws (run_error (exception_text env e))

module _ (env : External) (overrides chart_dir : String) (after : Log) where
  -- The `catch` and the `finally` part, after the block.
  abbrev closing : Outcome Resources × Log → Outcome Resources × Log
  closing x =
      finish (clean_up env overrides chart_dir)
        (catching (λ e. throw (run_error (exception_text env e))) x)

  cleanup_after :
      (o : Outcome Resources)
      → env.remove (after ++ remove_dir chart_dir ∷ []) ≡ ok tt
      → env.remove ((after ++ remove_dir chart_dir ∷ []) ++ remove_file overrides ∷ []) ≡ ok tt
      → closing (o, after)
        ≡ (as_run_error env o, (after ++ remove_dir chart_dir ∷ []) ++ remove_file overrides ∷ [])
  unfolding clean_up
  cleanup_after (ok r) dir file = rw (dir, file)
  cleanup_after (throws e) dir file = rw (dir, file)

  cleanup_failed :
      (o : Outcome Resources) (e : Exception)
      → env.remove (after ++ remove_dir chart_dir ∷ []) ≡ throws e
      → closing (o, after) ≡ (throws e, after ++ remove_dir chart_dir ∷ [])
  unfolding clean_up
  cleanup_failed (ok r) e dir = rw dir
  cleanup_failed (throws x) e dir = rw dir

module _ (env : External) (release : String) (config : ChartOpts) (self : ℕ)
    (overrides chart_dir : String) (log after : Log) (o : Outcome Resources) where
  -- However the expansion of a chart ends, the directory is removed and then the file, where both
  -- removals succeed. The outcome stays what it was, but that an exception becomes a `RunError` with
  -- the exception's text.
  pub guarded_chart-cleans_up :
      expand_chart env release config self overrides chart_dir log ≡ (o, after)
      → env.remove (after ++ remove_dir chart_dir ∷ []) ≡ ok tt
      → env.remove ((after ++ remove_dir chart_dir ∷ []) ++ remove_file overrides ∷ []) ≡ ok tt
      → guarded_chart env release config self overrides chart_dir log
        ≡ (as_run_error env o, (after ++ remove_dir chart_dir ∷ []) ++ remove_file overrides ∷ [])
  unfolding guarded_chart
  guarded_chart-cleans_up run dir file =
      rw run (cleanup_after env overrides chart_dir after o dir file)

  -- If the removal of the directory throws, that exception takes the place of the outcome, and the
  -- file is not removed.
  pub guarded_chart-removal_failed :
      (e : Exception)
      → expand_chart env release config self overrides chart_dir log ≡ (o, after)
      → env.remove (after ++ remove_dir chart_dir ∷ []) ≡ throws e
      → guarded_chart env release config self overrides chart_dir log
        ≡ (throws e, after ++ remove_dir chart_dir ∷ [])
  unfolding guarded_chart
  guarded_chart-removal_failed e run dir =
      rw run (cleanup_failed env overrides chart_dir after o e dir)

-- The effects of a chart up to its temporary file.
abbrev pub opened : String → ChartOpts → Option ResourceOptions → Log → Log
opened release config opts log =
    (log ++ component "kubernetes:helm.sh/v2:Chart" release (chart config) opts ∷ [])
    ++ file_sync ".yaml" ∷ []

-- If the temporary directory cannot be made, the chart ends in that exception as it is, and the
-- temporary file made before is not removed.
pub new_chart-dir_failed :
    (env : External) (release : String) (config : ChartOpts) (opts : Option ResourceOptions)
    (log : Log) (overrides : String) (e : Exception)
    → env.component
        (log ++ component "kubernetes:helm.sh/v2:Chart" release (chart config) opts ∷ [])
      ≡ ok tt
    → env.file_sync (opened release config opts log) ≡ ok overrides
    → env.dir_sync (opened release config opts log ++ dir_sync ∷ []) ≡ throws e
    → new_chart env release config opts log
      ≡ (throws e, opened release config opts log ++ dir_sync ∷ [])
unfolding new_chart new_component
new_chart-dir_failed env release config opts log overrides e made file dir =
    rw (made, new_chart) (rw file (rw dir refl))

-- The effects of an expansion, one after another.
abbrev pub fetched : External → ChartOpts → String → Log → Log
fetched env config chart_dir log =
    log
    ++ exec_sync (
        fetch_command env (config.repo <> ("/" <> config.chart))
          (some (chart_fetch_opts chart_dir config.version)))
      ∷ []

abbrev pub written : External → ChartOpts → String → String → Log → Log
written env config overrides chart_dir log =
    fetched env config chart_dir log
    ++ write_file overrides (stringify (values_of config.values)) ∷ []

abbrev pub templated : External → String → ChartOpts → String → String → Log → Log
templated env release config overrides chart_dir log =
    written env config overrides chart_dir log
    ++ exec_sync (template_command env release config chart_dir overrides) ∷ []

-- When the two commands and the write of the overrides succeed and the loader accepts the stream,
-- the chart's resources are those of the document of the stream's objects, made as children of the
-- chart, after the three effects in this order.
pub expand_chart-document :
    (env : External) (release : String) (config : ChartOpts) (self : ℕ)
    (overrides chart_dir output stream : String) (objs : List Value) (log : Log)
    → env.exec_sync (fetched env config chart_dir log) ≡ ok output
    → env.write_file (written env config overrides chart_dir log) ≡ ok tt
    → env.exec_sync (templated env release config overrides chart_dir log) ≡ ok stream
    → env.safe_load_all stream ≡ ok objs
    → expand_chart env release config self overrides chart_dir log
      ≡ parse_yaml_document env
          (record { objs = objs; transformations = some (or_empty config.transformations) })
          (parent_of self)
          (templated env release config overrides chart_dir log)
unfolding expand_chart fetch
expand_chart-document env release config self overrides chart_dir output stream objs log f w t l =
    rw f (
      rw w (
        rw t (
          parse-texts env (parent_of self) (some (or_empty config.transformations))
            (many (stream ∷ [])) objs (templated env release config overrides chart_dir log)
            (rw l (ap ok (append-nil objs))))))
