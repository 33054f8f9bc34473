-- ===== src/Yaml/Document/Trace.antt =====
-- The runs of `parseYamlDocument`, object by object.
use pulumi_kubernetes.Common.{
  ◌≡◌, refl, sym, ap, ◌∙◌, List, [], ◌∷◌, ◌++◌, append_assoc, append-nil, Option, some, none, All,
}
use pulumi_kubernetes.Js.Value.{Value}
use pulumi_kubernetes.Js.Outcome.{Exception, Outcome, ok, throws}
use pulumi_kubernetes.Options.{ConfigOpts, Transformation, ResourceOptions}
use pulumi_kubernetes.Runtime.{External, Log, ◌>>=◌, continue, pure}
use pulumi_kubernetes.Yaml.Object.{FileObject, parse_yaml_object}
use pulumi_kubernetes.Yaml.Object.Branches.{registration}
use pulumi_kubernetes.Yaml.Object.Run.{IsRun, parse_yaml_object-IsRun}
use pulumi_kubernetes.Yaml.Document.{Resources, parse_yaml_document}
use pulumi_kubernetes.Yaml.Document.Objects.{
  add, store_all, registrations, finished, collect_objects, document_from-collect_objects,
}

-- The objects parsed one after another, each once, from a log to a later one: one that gives `null`
-- leaves the log, one that gives a resource adds the resource's registration and nothing else.
pub data IsParsed (env : External) (ts : Option (List Transformation))
    (opts : Option ResourceOptions) : List Value → Log → List FileObject → Log → Type 0 where
  all_parsed : (log : Log) → IsParsed env ts opts [] log [] log
  skipped :
      {obj : Value} {objs : List Value} {log after : Log} {fs : List FileObject}
      → parse_yaml_object env obj ts opts log ≡ (ok none, log)
      → IsParsed env ts opts objs log fs after
      → IsParsed env ts opts (obj ∷ objs) log fs after
  registered :
      {obj : Value} {objs : List Value} {log after : Log} {f : FileObject} {fs : List FileObject}
      → parse_yaml_object env obj ts opts log ≡ (ok (some f), log ++ registration f.resource ∷ [])
      → f.resource.opts ≡ opts
      → IsParsed env ts opts objs (log ++ registration f.resource ∷ []) fs after
      → IsParsed env ts opts (obj ∷ objs) log (f ∷ fs) after

module _ (env : External) (ts : Option (List Transformation)) (opts : Option ResourceOptions) where
  -- The objects before one are parsed, that one throws, and the objects behind it are not reached.
  pub record IsStopped (objs : List Value) (log : Log) (e : Exception) (after : Log) : Type 0 where
    pub before : List Value
    pub obj : Value
    pub behind : List Value
    pub fs : List FileObject
    pub middle : Log
    pub split : objs ≡ before ++ obj ∷ behind
    pub parsed : IsParsed env ts opts before log fs middle
    pub stops : parse_yaml_object env obj ts opts middle ≡ (throws e, after)

  abbrev IsCollected : List Value → Log → Outcome (List FileObject) × Log → Type 0
  IsCollected objs log (ok fs, after) = IsParsed env ts opts objs log fs after
  IsCollected objs log (throws e, after) = IsStopped objs log e after

  IsCollected-skipped :
      (obj : Value) (objs : List Value) (log : Log) (y : Outcome (List FileObject) × Log)
      → parse_yaml_object env obj ts opts log ≡ (ok none, log)
      → IsCollected objs log y
      → IsCollected (obj ∷ objs) log (continue (λ fs. pure (add none fs)) y)
  IsCollected-skipped obj objs log (ok fs, after) run h = skipped run h
  IsCollected-skipped obj objs log (throws e, after) run h = record {
    before = obj ∷ h.before;
    obj = h.obj;
    behind = h.behind;
    fs = h.fs;
    middle = h.middle;
    split = ap (λ l. obj ∷ l) h.split;
    parsed = skipped run h.parsed;
    stops = h.stops;
  }

  IsCollected-registered :
      (obj : Value) (objs : List Value) (log : Log) (f : FileObject)
      (y : Outcome (List FileObject) × Log)
      → parse_yaml_object env obj ts opts log ≡ (ok (some f), log ++ registration f.resource ∷ [])
      → f.resource.opts ≡ opts
      → IsCollected objs (log ++ registration f.resource ∷ []) y
      → IsCollected (obj ∷ objs) log (continue (λ fs. pure (add (some f) fs)) y)
  IsCollected-registered obj objs log f (ok fs, after) run given h = registered run given h
  IsCollected-registered obj objs log f (throws e, after) run given h = record {
    before = obj ∷ h.before;
    obj = h.obj;
    behind = h.behind;
    fs = f ∷ h.fs;
    middle = h.middle;
    split = ap (λ l. obj ∷ l) h.split;
    parsed = registered run given h.parsed;
    stops = h.stops;
  }

  IsCollected-step :
      (obj : Value) (objs : List Value)
      (ih : (log : Log) → IsCollected objs log (collect_objects env ts opts objs log)) (log : Log)
      (x : Outcome (Option FileObject) × Log)
      → parse_yaml_object env obj ts opts log ≡ x
      → IsRun opts log x
      → IsCollected
          (obj ∷ objs)
          log
          (continue (λ f. collect_objects env ts opts objs >>= λ fs. pure (add f fs)) x)
  IsCollected-step obj objs ih log (ok none, after) run e = rw e (
      IsCollected-skipped obj objs log (collect_objects env ts opts objs log) (run ∙ rw e) (ih log))
  IsCollected-step obj objs ih log (ok (some f), after) run (e, given) = rw e (
      IsCollected-registered obj objs log f
        (collect_objects env ts opts objs (log ++ registration f.resource ∷ [])) (run ∙ rw e) given
        (ih _))
  IsCollected-step obj objs ih log (throws x, after) run h = record {
    before = [];
    obj = obj;
    behind = objs;
    fs = [];
    middle = log;
    split = refl;
    parsed = all_parsed log;
    stops = run;
  }

  collect_objects-IsCollected :
      (objs : List Value) (log : Log) → IsCollected objs log (collect_objects env ts opts objs log)
  unfolding collect_objects
  collect_objects-IsCollected [] log = all_parsed log
  collect_objects-IsCollected (obj ∷ objs) log =
      IsCollected-step obj objs (λ l. collect_objects-IsCollected objs l) log
        (parse_yaml_object env obj ts opts log) refl (parse_yaml_object-IsRun env opts log obj ts)

  -- What parsed objects add to the log, and the options that their resources have.
  IsParsed-registrations :
      {objs : List Value} {log after : Log} {fs : List FileObject}
      → IsParsed env ts opts objs log fs after
      → (after ≡ log ++ registrations fs) × All (λ (f : FileObject). f.resource.opts ≡ opts) fs
  IsParsed-registrations (all_parsed log) = (sym (append-nil log), tt)
  IsParsed-registrations (skipped run h) = IsParsed-registrations h
  IsParsed-registrations (registered run given h) =
      let (e, options) = IsParsed-registrations h in (e ∙ rw append_assoc, (given, options))

  -- Parsed to the end, or stopped by an object that has registered one resource at most.
  abbrev pub IsDocumentRun : List Value → Log → Outcome Resources × Log → Type 0
  IsDocumentRun objs log (ok resources, after) =
      (fs : List FileObject) × (resources ≡ store_all [] fs)
      × IsParsed env ts opts objs log fs after
      × (after ≡ log ++ registrations fs)
      × All (λ (f : FileObject). f.resource.opts ≡ opts) fs
  IsDocumentRun objs log (throws e, after) =
      (s : IsStopped objs log e after) × (s.middle ≡ log ++ registrations s.fs)
      × IsRun opts s.middle (throws e, after)
      × All (λ (f : FileObject). f.resource.opts ≡ opts) s.fs

  IsDocumentRun-finished :
      (objs : List Value) (log : Log) (x : Outcome (List FileObject) × Log)
      → IsCollected objs log x
      → IsDocumentRun objs log (finished (store_all []) x)
  IsDocumentRun-finished objs log (ok fs, after) h =
      let (e, options) = IsParsed-registrations h in (fs, refl, h, e, options)
  IsDocumentRun-finished objs log (throws e, after) h =
      let (all, options) = IsParsed-registrations h.parsed in
      (h, all, rw h.stops at (parse_yaml_object-IsRun env opts h.middle h.obj ts), options)

-- A document that is parsed to its end has parsed each of its objects once, in order. It has
-- registered the resources that these runs gave, one after another under the given options, and
-- nothing else, and holds them under their keys, a later one in the place of an earlier one. One
-- that throws has parsed the objects before some object in this way, and then ends in what that
-- object throws, which has registered one more resource at most, under the same options; no object
-- behind it is reached.
pub parse_yaml_document-IsDocumentRun :
    (env : External) (config : ConfigOpts) (opts : Option ResourceOptions) (log : Log)
    → IsDocumentRun env config.transformations opts config.objs log
        (parse_yaml_document env config opts log)
unfolding parse_yaml_document
parse_yaml_document-IsDocumentRun env config opts log =
    rw (document_from-collect_objects env config.transformations opts [] config.objs log) (
      IsDocumentRun-finished env config.transformations opts config.objs log _
        (collect_objects-IsCollected env config.transformations opts config.objs log))
