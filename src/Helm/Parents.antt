-- ===== src/Helm/Parents.antt =====
-- What a chart registers, on every input.
use pulumi_kubernetes.Common.{
  ℕ, String, ◌<>◌, ◌≡◌, refl, sym, ◌∙◌, ap, inl, inr, List, [], ◌∷◌, ◌++◌, append_assoc, append-nil,
  Option, some, none, length, All, All-append,
}
use pulumi_kubernetes.Js.Json.{stringify}
use pulumi_kubernetes.Js.Outcome.{Outcome, Outcome-cases}
use pulumi_kubernetes.Options.{ChartOpts, ConfigGroupOpts, ResourceOptions, chart, many}
use pulumi_kubernetes.Runtime.{
  External, Event, Log, M, ◌>>=◌, ◌>>◌, pure, perform, component, custom, provider, file_sync,
  dir_sync, write_file, exec_sync, remove_dir, remove_file,
}
use pulumi_kubernetes.Yaml.Object.{or_empty}
use pulumi_kubernetes.Yaml.Object.Branches.{registration}
use pulumi_kubernetes.Yaml.Document.{Resources, parent_of, new_component, parse_files, parse}
use pulumi_kubernetes.Yaml.Document.Steps.{Holds-continue, Holds-parse_texts}
use pulumi_kubernetes.Helm.Fetch.{fetch_command, fetch}
use pulumi_kubernetes.Helm.Release.{closing-log}
use pulumi_kubernetes.Helm.Chart.{
  clean_up, expand_chart, guarded_chart, new_chart, chart_fetch_opts, template_command, values_of,
}

-- What the chart called `self` may do: effects that register nothing, and resources with itself as
-- the parent.
abbrev pub IsOwn : ℕ → Event → Type 0
IsOwn self (component _ _ _ _) = ⊥
IsOwn self (provider _ _ _ _) = ⊥
IsOwn self (custom _ _ _ opts) = opts ≡ parent_of self
IsOwn self _ = Unit

-- The log has gone on by such events only.
abbrev pub IsOwned : ℕ → Log → Log → Type 0
IsOwned self start log = (events : List Event) × (log ≡ start ++ events) × All (IsOwn self) events

module _ (self : ℕ) (start : Log) where
  IsOwned-step :
      (log : Log) (e : Event)
      → IsOwn self e
      → IsOwned self start log
      → IsOwned self start (log ++ e ∷ [])
  IsOwned-step log e own (events, same, owned) = (
    events ++ e ∷ [],
    ap (λ l. l ++ e ∷ []) same ∙ append_assoc start events (e ∷ []),
    All-append (IsOwn self) events (e ∷ []) owned (own, tt),
  )

  IsOwned-perform :
      {A : Type 0} (e : Event) (answer : Log → Outcome A) (log : Log)
      → IsOwn self e
      → IsOwned self start log
      → IsOwned self start (perform e answer log).1
  IsOwned-perform e answer log own now = IsOwned-step log e own now

  IsOwned-parse :
      (env : External) (config : ConfigGroupOpts) (log : Log)
      → config.files ≡ none
      → IsOwned self start log
      → IsOwned self start (parse env config (parent_of self) log).1
  unfolding parse parse_files
  IsOwned-parse env config log bare now = rw bare (
      Holds-parse_texts (IsOwned self start) (parent_of self)
        (λ l r e h. IsOwned-step l (registration r) e h) env [] (record config { files = none }) log
        now)

  module _ (env : External) (release : String) (config : ChartOpts)
      (overrides chart_dir : String) where
    abbrev expand : String → M Resources
    expand stream =
        parse env
          (record {
            files = none;
            yaml = some (many (stream ∷ []));
            transformations = some (or_empty config.transformations);
          })
          (parent_of self)

    IsOwned-expand_chart :
        (log : Log)
        → IsOwned self start log
        → IsOwned self start (expand_chart env release config self overrides chart_dir log).1
    unfolding expand_chart fetch
    IsOwned-expand_chart log now =
        let fetching = exec_sync (
          fetch_command env (config.repo <> ("/" <> config.chart))
            (some (chart_fetch_opts chart_dir config.version))) in
        let writing = write_file overrides (stringify (values_of config.values)) in
        let templating = exec_sync (template_command env release config chart_dir overrides) in
        Holds-continue (IsOwned self start)
          (λ (_ : Unit {0}).
            perform writing env.write_file >> (perform templating env.exec_sync >>= expand))
          (fetch env (config.repo <> ("/" <> config.chart))
            (some (chart_fetch_opts chart_dir config.version)) log)
          (Holds-continue (IsOwned self start) (λ (_ : String). pure tt)
            (perform fetching env.exec_sync log) (IsOwned-perform fetching env.exec_sync log tt now)
            λ _ fetched. fetched)
          λ _ fetched.
            Holds-continue (IsOwned self start)
              (λ (_ : Unit {0}). perform templating env.exec_sync >>= expand)
              (perform writing env.write_file _)
              (IsOwned-perform writing env.write_file _ tt fetched)
              λ _ written.
                Holds-continue (IsOwned self start) expand (perform templating env.exec_sync _)
                  (IsOwned-perform templating env.exec_sync _ tt written)
                  λ stream templated. IsOwned-parse env _ _ refl templated

    IsOwned-clean_up :
        (log : Log)
        → IsOwned self start log
        → IsOwned self start (clean_up env overrides chart_dir log).1
    unfolding clean_up
    IsOwned-clean_up log now =
        Holds-continue (IsOwned self start)
          (λ (_ : Unit {0}). perform (remove_file overrides) env.remove)
          (perform (remove_dir chart_dir) env.remove log)
          (IsOwned-perform (remove_dir chart_dir) env.remove log tt now)
          λ _ removed. IsOwned-perform (remove_file overrides) env.remove _ tt removed

    IsOwned-guarded_chart :
        (log : Log)
        → IsOwned self start log
        → IsOwned self start (guarded_chart env release config self overrides chart_dir log).1
    unfolding guarded_chart
    IsOwned-guarded_chart log now =
        let run = expand_chart env release config self overrides chart_dir log in
        rw (closing-log env overrides chart_dir run)
          (IsOwned-clean_up run.1 (IsOwned-expand_chart log now))

-- The log with the registration of a chart's component.
abbrev pub chart_opened : String → ChartOpts → Option ResourceOptions → Log → Log
chart_opened release config opts log =
    log ++ component "kubernetes:helm.sh/v2:Chart" release (chart config) opts ∷ []

-- A chart registers its own component first. Whatever happens then, and however the chart ends, it
-- registers no other component and no provider, and each of its resources has the chart as the
-- parent.
pub new_chart-IsOwned :
    (env : External) (release : String) (config : ChartOpts) (opts : Option ResourceOptions)
    (log : Log)
    → IsOwned
        (length log)
        (chart_opened release config opts log)
        (new_chart env release config opts log).1
unfolding new_chart new_component
new_chart-IsOwned env release config opts log =
    let self = length log in
    let start = chart_opened release config opts log in
    let here : IsOwned self start start = ([], sym (append-nil start), tt) in
    elim (Outcome-cases (env.component start)) [
      | inl (done, accepted) ↦ rw accepted (
          Holds-continue (IsOwned self start) _ (perform (file_sync ".yaml") env.file_sync start)
            (IsOwned-perform self start (file_sync ".yaml") env.file_sync start tt here)
            λ overrides filed.
              Holds-continue (IsOwned self start) _ (perform dir_sync env.dir_sync _)
                (IsOwned-perform self start dir_sync env.dir_sync _ tt filed)
                λ chart_dir made.
                  Holds-continue (IsOwned self start)
                    (λ (r : Resources). pure (record { self = self; resources = r }))
                    (guarded_chart env release config self overrides chart_dir _)
                    (IsOwned-guarded_chart self start env release config overrides chart_dir _ made)
                    λ _ ended. ended)
      | inr (e, refused) ↦ rw refused here
    ]
