-- ===== src/Yaml/Dispatch/Types.antt =====
-- The classes that `parseYamlObject` makes against pack/nodejs/types: the interfaces of their
-- arguments and of their outputs.
use pulumi_kubernetes.Common.{
  String, ◌<>◌, ◌≡◌, refl, sym, ap, ◌∙◌, ◌↔◌, Bool, true, false, ◌&&◌, Option, none, some,
  Bool-cases, inl, inr, List, [], ◌∷◌, arith, all, ◌==◌, eq_iff,
}
use pulumi_kubernetes.Common.Dict.{Dict}
use pulumi_kubernetes.Js.Value.{object, string, Fields, property}
use pulumi_kubernetes.Js.Outcome.{ok, read}
use pulumi_kubernetes.Types.Shape.{
  Shape, text, number, boolean, any_object, number_or_text, list, dict, ref, input, Field, Guard,
  Interface,
}
use pulumi_kubernetes.Types.Test.{accepts}
use pulumi_kubernetes.Types.Find.{find_named, find_interface}
use pulumi_kubernetes.Types.Input.{input_types}
use pulumi_kubernetes.Types.Output.{output_types}
use pulumi_kubernetes.Yaml.Case.{Case}
use pulumi_kubernetes.Yaml.Switch.{switch_cases}
use pulumi_kubernetes.Yaml.Object.{find_case}
use pulumi_kubernetes.Yaml.Object.Names.{find_case_exact}
use pulumi_kubernetes.Yaml.Dispatch.{
  api_version_of, kind_of, has_slash, find_case-all, find_case-IsCoherent,
}

-- How a class writes a type of the outputs' file.
abbrev pub output_text : Shape → String
output_text text = "string"
output_text number = "number"
output_text boolean = "boolean"
output_text any_object = "object"
output_text number_or_text = "number | string"
output_text (list s) = output_text s <> "[]"
output_text (dict s) = "{[key: string]: pulumi.Output<" <> (output_text s <> ">}")
output_text (ref namespace name) = "outputApi." <> (namespace <> ("." <> name))
output_text (input s) = output_text s

abbrev pub output_entries : List Field → Dict String
output_entries [] = []
output_entries (f ∷ fs) = (f.name, output_text f.shape) ∷ output_entries fs

abbrev pub guard_of : Case → Guard
guard_of c = record { api_version = api_version_of c.made; kind = kind_of c.made }

-- The interfaces under the name that the class's constructor takes its arguments by.
abbrev pub args_of : Case → Option Interface
args_of c = find_interface input_types c.made.args.0 c.made.args.1

abbrev pub outputs_of : Case → Option Interface
outputs_of c = find_interface output_types c.made.args.0 c.made.args.1

abbrev same_entries : Dict String → List Field → Bool
same_entries [] [] = true
same_entries ((k, t) ∷ d) (f ∷ fs) = k == f.name && (t == output_text f.shape && same_entries d fs)
same_entries _ _ = false

abbrev same_guard : Option Guard → Guard → Bool
same_guard none h = false
same_guard (some g) h = g.api_version == h.api_version && g.kind == h.kind

abbrev fits_args : Case → Option Interface → Bool
fits_args c none = false
fits_args c (some i) = same_guard i.guard (guard_of c)

abbrev fits_outputs : Case → Option Interface → Bool
fits_outputs c none = false
fits_outputs c (some o) = same_entries c.made.outputs o.fields

typed : Case → Bool
typed c = fits_args c (args_of c) && fits_outputs c (outputs_of c)

all-typed : all typed switch_cases ≡ true
unfolding typed switch_cases find_interface find_named input_types output_types
all-typed = refl

same_entries-eq :
    (d : Dict String) (fs : List Field) → same_entries d fs ≡ true → d ≡ output_entries fs
same_entries-eq [] [] h = refl
same_entries-eq ((k, t) ∷ d) (f ∷ fs) h =
    ground (arith, eq_iff k f.name, eq_iff t (output_text f.shape), same_entries-eq d fs)
same_entries-eq [] (f ∷ fs) h = cc
same_entries-eq ((k, t) ∷ d) [] h = cc

same_guard-eq : (o : Option Guard) (g : Guard) → same_guard o g ≡ true → o ≡ some g
same_guard-eq none g h = cc
same_guard-eq (some f) g h =
    ground (arith, eq_iff f.api_version g.api_version, eq_iff f.kind g.kind)

fits_args-eq :
    (c : Case) (o : Option Interface)
    → fits_args c o ≡ true
    → (i : Interface) × (o ≡ some i) × (i.guard ≡ some (guard_of c))
fits_args-eq c none h = cc
fits_args-eq c (some i) h = (i, refl, same_guard-eq i.guard (guard_of c) h)

fits_outputs-eq :
    (c : Case) (o : Option Interface)
    → fits_outputs c o ≡ true
    → (i : Interface) × (o ≡ some i) × (c.made.outputs ≡ output_entries i.fields)
fits_outputs-eq c none h = cc
fits_outputs-eq c (some i) h = (i, refl, same_entries-eq c.made.outputs i.fields h)

-- The class of a case takes its arguments as an interface that is declared, and whose test compares
-- with the class's own API version and kind. The outputs' file declares an interface of the same
-- name, and the class's outputs are its fields with their types, in order.
pub find_case-interfaces :
    (label : String) (c : Case)
    → find_case label switch_cases ≡ some c
    → ((i : Interface) × (args_of c ≡ some i) × (i.guard ≡ some (guard_of c)))
      × ((o : Interface) × (outputs_of c ≡ some o) × (c.made.outputs ≡ output_entries o.fields))
unfolding typed
find_case-interfaces label c found =
    let h : typed c ≡ true = (find_case-all typed label switch_cases c all-typed found).0 in
    (
      fits_args-eq c (args_of c) (ground (arith, h)),
      fits_outputs-eq c (outputs_of c) (ground (arith, h)),
    )

accepts-texts :
    (g : Guard) (fs : Fields) (version kind : String)
    → property "apiVersion" fs ≡ string version
    → property "kind" fs ≡ string kind
    → accepts g (object fs) ≡ ok (version == g.api_version && kind == g.kind)
unfolding accepts read
accepts-texts g fs version kind versioned kinded = elim (Bool-cases (version == g.api_version)) [
  | inl same ↦ rw (versioned, same, kinded) refl
  | inr other ↦ rw (versioned, other) refl
]

guard_of-args :
    (label : String) (c : Case) (i : Interface) (g : Guard)
    → find_case label switch_cases ≡ some c
    → args_of c ≡ some i
    → i.guard ≡ some g
    → g ≡ guard_of c
guard_of-args label c i g found declared tested =
    let ((j, there, own), _) = find_case-interfaces label c found in
    let same : j ≡ i = cc in
    let guards : some g ≡ some (guard_of c) =
      sym tested ∙ ap (λ (k : Interface). k.guard) (sym same) ∙ own in
    cc

-- The test of the interface that a class takes its arguments as accepts an object with the texts of
-- its API version and its kind exactly when `parseYamlObject` makes that class of an object with
-- these texts, where the kind has no slash.
pub accepts-find_case :
    (label : String) (c : Case) (i : Interface) (g : Guard) (fs : Fields) (version kind : String)
    → find_case label switch_cases ≡ some c
    → args_of c ≡ some i
    → i.guard ≡ some g
    → has_slash kind ≡ false
    → property "apiVersion" fs ≡ string version
    → property "kind" fs ≡ string kind
    → (accepts g (object fs) ≡ ok true)
      ↔ (find_case (version <> ("/" <> kind)) switch_cases ≡ some c)
accepts-find_case label c i g fs version kind found declared tested plain versioned kinded =
    let guard : g ≡ guard_of c = guard_of-args label c i g found declared tested in
    let (named, fits) = find_case-IsCoherent label c found in
    let run : accepts (guard_of c) (object fs)
        ≡ ok (version == api_version_of c.made && kind == kind_of c.made) =
      accepts-texts (guard_of c) fs version kind versioned kinded in
    rw (guard, run)
      (
        λ e.
            let both : (version == api_version_of c.made && kind == kind_of c.made) ≡ true = cc in
            let first : version ≡ api_version_of c.made = (eq_iff _ _).0 (ground (arith, both)) in
            let second : kind ≡ kind_of c.made = (eq_iff _ _).0 (ground (arith, both)) in
            let same : version <> ("/" <> kind) ≡ label =
              rw (first, second) (sym fits.label ∙ named) in
            ap (λ t. find_case t switch_cases) same ∙ found,
        λ e.
            let (first, second) = find_case_exact version kind c plain e in
            let one : (version == api_version_of c.made) ≡ true = (eq_iff _ _).1 (sym first) in
            let two : (kind == kind_of c.made) ≡ true = (eq_iff _ _).1 (sym second) in
            rw (one, two) refl,
      )
