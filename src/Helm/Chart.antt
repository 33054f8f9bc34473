-- ===== src/Helm/Chart.antt =====
-- The constructor of `v2.Chart` of pack/nodejs/helm.ts.
use pulumi_kubernetes.Common.{ℕ, String, ◌<>◌, if◌then◌else◌, ◌==◌, Option, none, some, [], ◌∷◌}
use pulumi_kubernetes.Js.Value.{Value, object, end, truthy}
use pulumi_kubernetes.Js.Outcome.{
  Exception, error, type_error, run_error, foreign, Outcome, ok, throws,
}
use pulumi_kubernetes.Js.Json.{stringify}
use pulumi_kubernetes.Options.{ChartOpts, FetchOpts, ResourceOptions, chart, many}
use pulumi_kubernetes.Runtime.{
  External, Log, M, ◌>>=◌, ◌>>◌, pure, perform, throw, exec_sync, file_sync, dir_sync, write_file,
  remove_dir, remove_file,
}
use pulumi_kubernetes.Yaml.Object.{or_empty}
use pulumi_kubernetes.Yaml.Document.{Collection, Resources, parent_of, new_component, parse}
use pulumi_kubernetes.Helm.Fetch.{fetch}

-- `try { body } catch (e) { handler(e) }`
abbrev pub catching : {A : Type 0} → (Exception → M A) → Outcome A × Log → Outcome A × Log
catching handler (ok a, log) = (ok a, log)
catching handler (throws e, log) = handler e log

abbrev pub try_catch : {A : Type 0} → M A → (Exception → M A) → M A
try_catch body handler log = catching handler (body log)

-- What a block with a `finally` part ends with: the exception of that part if it throws, and
-- otherwise what the block ended with.
abbrev pub keep_outcome : {A : Type 0} → Outcome A → Outcome (Unit {0}) × Log → Outcome A × Log
keep_outcome before (ok _, log) = (before, log)
keep_outcome before (throws e, log) = (throws e, log)

abbrev pub finish : {A : Type 0} → M (Unit {0}) → Outcome A × Log → Outcome A × Log
finish cleanup (before, log) = keep_outcome before (cleanup log)

-- `try { body } finally { cleanup }`
abbrev pub try_finally : {A : Type 0} → M A → M (Unit {0}) → M A
try_finally body cleanup log = finish cleanup (body log)

-- `{destination: chartDir.name, version: config.version}`
abbrev pub chart_fetch_opts : String → String → FetchOpts
chart_fetch_opts destination version = record {
  version = some version;
  ca_file = none;
  cert_file = none;
  key_file = none;
  destination = some destination;
  keyring = none;
  password = none;
  repo = none;
  untardir = none;
  username = none;
  home = none;
  devel = none;
  prov = none;
  untar = none;
  verify = none;
}

-- `config.values || {}`
abbrev pub values_of : Value → Value
values_of v = if truthy v then v else object end

module _ (env : External) where
  -- `e.toString()`
  unfoldable pub exception_text : Exception → String
  exception_text (error message) = if message == "" then "Error" else "Error: " <> message
  exception_text (type_error property value) = env.type_error_text property value
  exception_text (run_error message) = env.run_error_text message
  exception_text (foreign text) = text

  -- `--namespace …`, if there is a namespace and it is not empty.
  abbrev pub namespace_arg : Option String → String
  namespace_arg none = ""
  namespace_arg (some namespace) =
      if namespace == "" then "" else "--namespace " <> env.quote (namespace ∷ [])

  unfoldable pub template_command : String → ChartOpts → String → String → String
  template_command release_name config chart_dir overrides =
      let chart = env.quote (chart_dir ∷ []) <> ("/" <> env.quote (config.chart ∷ [])) in
      let release = env.quote (release_name ∷ []) in
      let values = env.quote (overrides ∷ []) in
      "helm template "
      <> (chart
          <> (" --name "
              <> (release
                  <> (" --values " <> (values <> (" " <> namespace_arg config.namespace))))))

  -- The `try` block.
  unfoldable pub expand_chart : String → ChartOpts → ℕ → String → String → M Resources
  expand_chart release_name config self overrides chart_dir = do
    fetch env (config.repo <> ("/" <> config.chart))
        (some (chart_fetch_opts chart_dir config.version))
    perform (write_file overrides (stringify (values_of config.values))) env.write_file
    yaml_stream ←
        perform (exec_sync (template_command release_name config chart_dir overrides)) env.exec_sync
    parse env
        (record {
          files = none;
          yaml = some (many (yaml_stream ∷ []));
          transformations = some (or_empty config.transformations);
        })
        (parent_of self)

  -- The `finally` block.
  unfoldable pub clean_up : String → String → M (Unit {0})
  clean_up overrides chart_dir = do
    perform (remove_dir chart_dir) env.remove
    perform (remove_file overrides) env.remove

  -- The `try` statement.
  unfoldable pub guarded_chart : String → ChartOpts → ℕ → String → String → M Resources
  guarded_chart release_name config self overrides chart_dir =
      try_finally
        (try_catch (expand_chart release_name config self overrides chart_dir)
          (λ e. throw (run_error (exception_text e))))
        (clean_up overrides chart_dir)

  unfoldable pub new_chart : String → ChartOpts → Option ResourceOptions → M Collection
  new_chart release_name config opts = do
    self ← new_component env "kubernetes:helm.sh/v2:Chart" release_name (chart config) opts
    overrides ← perform (file_sync ".yaml") env.file_sync
    chart_dir ← perform dir_sync env.dir_sync
    resources ← guarded_chart release_name config self overrides chart_dir
    pure (record { self = self; resources = resources })
