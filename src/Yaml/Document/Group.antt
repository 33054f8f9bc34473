-- ===== src/Yaml/Document/Group.antt =====
-- The effects of `parse` and of `ConfigGroup`, on every input.
use pulumi_kubernetes.Common.{
  ℕ, String, refl, inl, inr, List, [], ◌∷◌, ◌++◌, Option, some, Option-cases, length,
}
use pulumi_kubernetes.Common.Dict.{spread}
use pulumi_kubernetes.Js.Outcome.{Outcome, Outcome-cases, ok, throws}
use pulumi_kubernetes.Options.{
  OneOrMany, one, many, ConfigOpts, ConfigGroupOpts, ResourceOptions, group,
}
use pulumi_kubernetes.Runtime.{External, Log, component, glob_sync, read_file}
use pulumi_kubernetes.Yaml.Document.{
  Collection, Resources, parent_of, new_component, new_config_file, glob_from, expand_files,
  files_from, parse_files, parse_texts, parse, new_config_group,
}
use pulumi_kubernetes.Yaml.Document.Files.{IsFileRun, file_opened, new_config_file-IsFileRun}
use pulumi_kubernetes.Yaml.Document.Steps.{Holds-continue, Holds-parse_texts}
use pulumi_kubernetes.Yaml.Document.Below.{
  IsBelow, here, expanded, loaded, opened, IsBelow-document, IsBelow-registered,
}

module _ (env : External) (self : ℕ) (start : Log) where
  IsBelow-file :
      (name : String) (config : ConfigOpts) (log : Log) (x : Outcome Collection × Log)
      → IsBelow self start log
      → IsFileRun name config (parent_of self) log x
      → IsBelow self start x.1
  IsBelow-file name config log (ok cf, after) below (_, run) =
      IsBelow-document self start (length log) (file_opened name config (parent_of self) log)
        (ok cf.resources, after) (inr (log, [], name, config, refl, refl))
        (opened log name config below) run
  IsBelow-file name config log (throws e, after) below (inl same) =
      rw same (opened log name config below)
  IsBelow-file name config log (throws e, after) below (inr run) =
      IsBelow-document self start (length log) (file_opened name config (parent_of self) log)
        (throws e, after) (inr (log, [], name, config, refl, refl)) (opened log name config below)
        run

  IsBelow-files_from :
      (resources : Resources) (files : List String) (config : ConfigGroupOpts) (log : Log)
      → IsBelow self start log
      → IsBelow self start (files_from env resources files config (parent_of self) log).1
  unfolding files_from
  IsBelow-files_from resources [] config log below = below
  IsBelow-files_from resources (name ∷ files) config log below =
      Holds-continue (IsBelow self start) _
        (env.read_file (log ++ read_file name ∷ []), log ++ read_file name ∷ [])
        (loaded log name below)
        λ text read.
          Holds-continue (IsBelow self start) _ (env.safe_load_all text, log ++ read_file name ∷ [])
            read
            λ objs parsed.
              let opened : ConfigOpts = record {
                objs = objs;
                transformations = config.transformations;
              } in
              Holds-continue (IsBelow self start)
                (λ (cf : Collection).
                  files_from env (spread resources cf.resources) files config (parent_of self))
                (new_config_file env name opened (parent_of self) (log ++ read_file name ∷ []))
                (IsBelow-file name opened (log ++ read_file name ∷ []) _ parsed (
                  new_config_file-IsFileRun env name opened (parent_of self)
                    (log ++ read_file name ∷ [])))
                λ cf made. IsBelow-files_from (spread resources cf.resources) files config _ made

  IsBelow-glob_from :
      (files patterns : List String) (log : Log)
      → IsBelow self start log
      → IsBelow self start (glob_from env files patterns log).1
  unfolding glob_from
  IsBelow-glob_from files [] log below = below
  IsBelow-glob_from files (pattern ∷ patterns) log below =
      Holds-continue (IsBelow self start) _
        (env.glob_sync (log ++ glob_sync pattern ∷ []), log ++ glob_sync pattern ∷ [])
        (expanded log pattern below)
        λ found done. IsBelow-glob_from (files ++ found) patterns _ done

  IsBelow-expand_files :
      (patterns : OneOrMany) (log : Log)
      → IsBelow self start log
      → IsBelow self start (expand_files env patterns log).1
  unfolding expand_files
  IsBelow-expand_files (one pattern) log below = expanded log pattern below
  IsBelow-expand_files (many patterns) log below = IsBelow-glob_from [] patterns log below

  IsBelow-parse_files :
      (config : ConfigGroupOpts) (log : Log)
      → IsBelow self start log
      → IsBelow self start (parse_files env config (parent_of self) log).1
  unfolding parse_files
  IsBelow-parse_files config log below = elim (Option-cases config.files) [
    | inl missing ↦ rw missing below
    | inr (patterns, e) ↦ rw e (
        Holds-continue (IsBelow self start)
          (λ files.
            files_from env [] files (record config { files = some patterns }) (parent_of self))
          (expand_files env patterns log) (IsBelow-expand_files patterns log below)
          λ files found.
            IsBelow-files_from [] files (record config { files = some patterns }) _ found)
  ]

  pub IsBelow-parse :
      (config : ConfigGroupOpts) (log : Log)
      → IsBelow self start log
      → IsBelow self start (parse env config (parent_of self) log).1
  unfolding parse
  IsBelow-parse config log below =
      Holds-continue (IsBelow self start)
        (λ resources. parse_texts env resources config (parent_of self))
        (parse_files env config (parent_of self) log) (IsBelow-parse_files config log below)
        λ resources done.
          Holds-parse_texts (IsBelow self start) (parent_of self) (IsBelow-registered self start)
            env resources config _ done

-- The log with the registration of a group's component.
abbrev pub group_opened : String → ConfigGroupOpts → Option ResourceOptions → Log → Log
group_opened name config opts log =
    log ++ component "kubernetes:yaml:ConfigGroup" name (group config) opts ∷ []

-- A group registers its own component first, and then reaches only logs below it: every resource
-- has the group or one of its files as the parent, and every file has the group, whether the group
-- is made or ends in an exception.
pub new_config_group-IsBelow :
    (env : External) (name : String) (config : ConfigGroupOpts) (opts : Option ResourceOptions)
    (log : Log)
    → IsBelow
        (length log)
        (group_opened name config opts log)
        (new_config_group env name config opts log).1
unfolding new_config_group new_component
new_config_group-IsBelow env name config opts log =
    let start = group_opened name config opts log in
    elim (Outcome-cases (env.component start)) [
      | inl (done, accepted) ↦ rw accepted (
          Holds-continue (IsBelow (length log) start) _
            (parse env config (parent_of (length log)) start)
            (IsBelow-parse env (length log) start config start here) λ resources made. made)
      | inr (e, refused) ↦ rw refused here
    ]
