-- ===== src/Helm/Expansion.antt =====
-- The constructor of `v2.Chart` from its registration to its end.
use pulumi_kubernetes.Common.{ℕ, String, ◌≡◌, refl, ◌∙◌, List, [], ◌∷◌, ◌++◌, Option, some, length}
use pulumi_kubernetes.Js.Value.{Value}
use pulumi_kubernetes.Js.Outcome.{Outcome, ok, throws}
use pulumi_kubernetes.Options.{ChartOpts, ResourceOptions, chart}
use pulumi_kubernetes.Runtime.{External, Log, component, dir_sync, remove_dir, remove_file}
use pulumi_kubernetes.Yaml.Document.{
  Collection, Resources, parent_of, new_component, parse_yaml_document,
}
use pulumi_kubernetes.Yaml.Object.{or_empty}
use pulumi_kubernetes.Helm.Chart.{guarded_chart, new_chart}
use pulumi_kubernetes.Helm.Cleanup.{
  as_run_error, opened, fetched, written, templated, guarded_chart-cleans_up, expand_chart-document,
}

-- The component with its resources, if there are any.
abbrev pub with_resources : ℕ → Outcome Resources → Outcome Collection
with_resources self (ok resources) = ok (record { self = self; resources = resources })
with_resources self (throws e) = throws e

-- The effects of a chart up to its temporary directory.
abbrev pub prepared : String → ChartOpts → Option ResourceOptions → Log → Log
prepared release config opts log = opened release config opts log ++ dir_sync ∷ []

-- The effects that remove the directory and the file of a chart.
abbrev pub cleaned : String → String → Log → Log
cleaned overrides chart_dir log = (log ++ remove_dir chart_dir ∷ []) ++ remove_file overrides ∷ []

module _ (env : External) (release : String) (config : ChartOpts) (opts : Option ResourceOptions)
    (log : Log) (overrides chart_dir : String) where
  pub new_chart-guarded :
      (o : Outcome Resources) (after : Log)
      → env.component
          (log ++ component "kubernetes:helm.sh/v2:Chart" release (chart config) opts ∷ [])
        ≡ ok tt
      → env.file_sync (opened release config opts log) ≡ ok overrides
      → env.dir_sync (prepared release config opts log) ≡ ok chart_dir
      → guarded_chart env release config
          (length log)
          overrides
          chart_dir
          (prepared release config opts log)
        ≡ (o, after)
      → new_chart env release config opts log ≡ (with_resources (length log) o, after)
  unfolding new_chart new_component
  new_chart-guarded (ok r) after made file dir run =
      rw (made, new_chart) (rw file (rw dir (rw run refl)))
  new_chart-guarded (throws e) after made file dir run =
      rw (made, new_chart) (rw file (rw dir (rw run refl)))

  -- A chart whose effects all succeed registers its component, makes a temporary file and a
  -- temporary directory, fetches, writes the overrides, runs the template, and parses the document
  -- of the objects in what that prints, with itself as the parent of what it registers. Then it
  -- removes the directory and the file. It ends in the document's resources, or in a `RunError` with
  -- the text of the exception that the document ended in.
  pub new_chart-document :
      (output stream : String) (objs : List Value) (o : Outcome Resources) (after : Log)
      → env.component
          (log ++ component "kubernetes:helm.sh/v2:Chart" release (chart config) opts ∷ [])
        ≡ ok tt
      → env.file_sync (opened release config opts log) ≡ ok overrides
      → env.dir_sync (prepared release config opts log) ≡ ok chart_dir
      → env.exec_sync (fetched env config chart_dir (prepared release config opts log)) ≡ ok output
      → env.write_file (written env config overrides chart_dir (prepared release config opts log))
        ≡ ok tt
      → env.exec_sync
          (templated env release config overrides chart_dir (prepared release config opts log))
        ≡ ok stream
      → env.safe_load_all stream ≡ ok objs
      → parse_yaml_document env
          (record { objs = objs; transformations = some (or_empty config.transformations) })
          (parent_of (length log))
          (templated env release config overrides chart_dir (prepared release config opts log))
        ≡ (o, after)
      → env.remove (after ++ remove_dir chart_dir ∷ []) ≡ ok tt
      → env.remove (cleaned overrides chart_dir after) ≡ ok tt
      → new_chart env release config opts log
        ≡ (with_resources (length log) (as_run_error env o), cleaned overrides chart_dir after)
  new_chart-document output stream objs o after made file dir fetch write template load parsed
        removed_dir removed_file =
      new_chart-guarded (as_run_error env o) (cleaned overrides chart_dir after) made file dir (
        guarded_chart-cleans_up env release config (length log) overrides chart_dir
          (prepared release config opts log) after o
          (expand_chart-document env release config (length log) overrides chart_dir output stream
              objs (prepared release config opts log) fetch write template load
            ∙ parsed)
          removed_dir removed_file)
