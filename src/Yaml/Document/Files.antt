-- ===== src/Yaml/Document/Files.antt =====
-- The components of files and groups, and the parents of what they register.
use pulumi_kubernetes.Common.{String, ◌≡◌, refl, ◌⊎◌, inl, inr, [], ◌∷◌, ◌++◌, Option, length}
use pulumi_kubernetes.Js.Outcome.{Outcome, Outcome-cases, ok, throws}
use pulumi_kubernetes.Options.{ConfigOpts, file, ResourceOptions}
use pulumi_kubernetes.Runtime.{External, Log, component, continue, pure}
use pulumi_kubernetes.Yaml.Document.{
  Collection, Resources, parent_of, new_component, new_config_file,
}
use pulumi_kubernetes.Yaml.Document.Registered.{IsRegistered, parse_yaml_document-IsRegistered}

-- The log with the registration of a file's component.
abbrev pub file_opened : String → ConfigOpts → Option ResourceOptions → Log → Log
file_opened name config opts log =
    log ++ component "kubernetes:yaml:ConfigFile" name (file config) opts ∷ []

module _ (name : String) (config : ConfigOpts) (opts : Option ResourceOptions) (log : Log) where
  -- A finished file is its component, with a document's run below it: every resource has the
  -- component as its parent. A file that throws has registered the component and nothing else, or
  -- the component and what its document registered before the failure.
  abbrev pub IsFileRun : Outcome Collection × Log → Type 0
  IsFileRun (ok cf, after) =
      (cf.self ≡ length log)
      × IsRegistered (parent_of (length log)) (file_opened name config opts log)
          (ok cf.resources, after)
  IsFileRun (throws e, after) =
      (after ≡ file_opened name config opts log)
      ⊎ IsRegistered (parent_of (length log)) (file_opened name config opts log) (throws e, after)

  IsFileRun-document :
      (x : Outcome Resources × Log)
      → IsRegistered (parent_of (length log)) (file_opened name config opts log) x
      → IsFileRun (continue (λ r. pure (record { self = length log; resources = r })) x)
  IsFileRun-document (ok r, after) h = (refl, h)
  IsFileRun-document (throws e, after) h = inr h

-- Every resource that a file registers has the file's own component as its parent, whatever options
-- the file was given; the options go to the component, which is registered first.
pub new_config_file-IsFileRun :
    (env : External) (name : String) (config : ConfigOpts) (opts : Option ResourceOptions)
    (log : Log)
    → IsFileRun name config opts log (new_config_file env name config opts log)
unfolding new_config_file new_component
new_config_file-IsFileRun env name config opts log =
    elim (Outcome-cases (env.component (file_opened name config opts log))) [
      | inl (done, accepted) ↦ rw accepted (
          IsFileRun-document name config opts log _ (
            parse_yaml_document-IsRegistered env config (parent_of (length log))
              (file_opened name config opts log)))
      | inr (e, refused) ↦ rw refused (inl refl)
    ]
