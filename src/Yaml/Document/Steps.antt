-- ===== src/Yaml/Document/Steps.antt =====
-- What stays true of the log while documents are parsed, if every registration keeps it.
use pulumi_kubernetes.Common.{
  String, ◌≡◌, inl, inr, List, [], ◌∷◌, ◌++◌, append_assoc, append-nil, Option, some, Option-cases,
  All,
}
use pulumi_kubernetes.Common.Dict.{spread}
use pulumi_kubernetes.Js.Outcome.{Outcome, ok, throws}
use pulumi_kubernetes.Options.{ConfigOpts, ConfigGroupOpts, ResourceOptions}
use pulumi_kubernetes.Runtime.{External, Log, M, continue}
use pulumi_kubernetes.Resources.Instance.{CustomResource}
use pulumi_kubernetes.Yaml.Object.{FileObject}
use pulumi_kubernetes.Yaml.Object.Branches.{registration}
use pulumi_kubernetes.Yaml.Document.{
  Resources, parse_yaml_document, texts_of, texts_from, parse_texts,
}
use pulumi_kubernetes.Yaml.Document.Objects.{registrations}
use pulumi_kubernetes.Yaml.Document.Registered.{IsRegistered, parse_yaml_document-IsRegistered}

module _ (Holds : Log → Type 0) where
  pub Holds-continue :
      {A B : Type 0} (f : A → M B) (x : Outcome A × Log)
      → Holds x.1
      → ((a : A) → Holds x.1 → Holds (f a x.1).1)
      → Holds (continue f x).1
  Holds-continue f (ok a, after) now step = step a now
  Holds-continue f (throws e, after) now step = now

module _ (Holds : Log → Type 0) (opts : Option ResourceOptions)
    (registered : (log : Log) (r : CustomResource)
      → r.opts ≡ opts
      → Holds log
      → Holds (log ++ registration r ∷ [])) where
  Holds-registrations :
      (fs : List FileObject) (log : Log)
      → All (λ (f : FileObject). f.resource.opts ≡ opts) fs
      → Holds log
      → Holds (log ++ registrations fs)
  Holds-registrations [] log h now = rw append-nil now
  Holds-registrations (f ∷ fs) log (e, h) now =
      rw (← append_assoc log (registration f.resource ∷ []) (registrations fs)) (
        Holds-registrations fs (log ++ registration f.resource ∷ []) h
          (registered log f.resource e now))

  pub Holds-document :
      (log : Log) (x : Outcome Resources × Log) → IsRegistered opts log x → Holds log → Holds x.1
  Holds-document log (ok r, after) (fs, _, e, h) now = rw e (Holds-registrations fs log h now)
  Holds-document log (throws x, after) (fs, inl e, h) now = rw e (Holds-registrations fs log h now)
  Holds-document log (throws x, after) (fs, inr (r, e, q), h) now =
      rw e (registered (log ++ registrations fs) r q (Holds-registrations fs log h now))

  Holds-parse_yaml_document :
      (env : External) (config : ConfigOpts) (log : Log)
      → Holds log
      → Holds (parse_yaml_document env config opts log).1
  Holds-parse_yaml_document env config log now =
      Holds-document log (parse_yaml_document env config opts log)
        (parse_yaml_document-IsRegistered env config opts log) now

  Holds-texts_from :
      (env : External) (resources : Resources) (texts : List String) (config : ConfigGroupOpts)
      (log : Log)
      → Holds log
      → Holds (texts_from env resources texts config opts log).1
  unfolding texts_from
  Holds-texts_from env resources [] config log now = now
  Holds-texts_from env resources (text ∷ texts) config log now =
      Holds-continue Holds _ (env.safe_load_all text, log) now
        λ objs loaded.
          Holds-continue Holds (λ found. texts_from env (spread resources found) texts config opts)
            (parse_yaml_document env
              (record { objs = objs; transformations = config.transformations }) opts log)
            (Holds-parse_yaml_document env
              (record { objs = objs; transformations = config.transformations }) log loaded)
            λ found parsed. Holds-texts_from env (spread resources found) texts config _ parsed

  pub Holds-parse_texts :
      (env : External) (resources : Resources) (config : ConfigGroupOpts) (log : Log)
      → Holds log
      → Holds (parse_texts env resources config opts log).1
  unfolding parse_texts
  Holds-parse_texts env resources config log now = elim (Option-cases config.yaml) [
    | inl missing ↦ rw missing now
    | inr (texts, e) ↦ rw e (
        Holds-texts_from env resources (texts_of texts) (record config { yaml = some texts }) log
          now)
  ]
