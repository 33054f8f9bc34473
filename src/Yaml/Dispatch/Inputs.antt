-- ===== src/Yaml/Dispatch/Inputs.antt =====
-- What the class of a case gives the base class for an object, told from its declared outputs.
use pulumi_kubernetes.Common.{
  String, ◌≡◌, refl, ap, ◌∙◌, Bool, true, false, ◌&&◌, if◌then◌else◌, List, [], ◌∷◌, arith, all,
  some, ◌==◌, eq_iff,
}
use pulumi_kubernetes.Common.Dict.{Dict}
use pulumi_kubernetes.Js.Value.{Value, object, string, Fields, property}
use pulumi_kubernetes.Js.Outcome.{ok}
use pulumi_kubernetes.Resources.Class.{Assignment, assign, copy, ResourceClass, populate}
use pulumi_kubernetes.Resources.Class.Inputs.{expected_inputs, populate-object}
use pulumi_kubernetes.Yaml.Case.{Case}
use pulumi_kubernetes.Yaml.Switch.{switch_cases}
use pulumi_kubernetes.Yaml.Object.{find_case}
use pulumi_kubernetes.Yaml.Dispatch.{
  names, api_version_of, kind_of, find_case-all, find_case-IsCoherent,
}

-- The value of an input: the class's own API version and kind, and else the object's property.
abbrev pub declared_input : ResourceClass → Fields → String → Value
declared_input c args k =
    if k == "apiVersion"
    then string (api_version_of c)
    else if k == "kind"
    then string (kind_of c)
    else property k args

abbrev pub declared_inputs : ResourceClass → Fields → List String → Dict Value
declared_inputs c args [] = []
declared_inputs c args (k ∷ ks) = (k, declared_input c args k) ∷ declared_inputs c args ks

fits : ResourceClass → Assignment → String → Bool
fits c (assign j text) k =
    j == k
    && (if k == "apiVersion"
        then text == api_version_of c
        else if k == "kind"
        then text == kind_of c
        else false)
fits c (copy j) k =
    j == k && (if k == "apiVersion" then false else if k == "kind" then false else true)

all_fit : ResourceClass → List Assignment → List String → Bool
all_fit c [] [] = true
all_fit c (a ∷ l) (k ∷ ks) = fits c a k && all_fit c l ks
all_fit c _ _ = false

regular : Case → Bool
regular c = all_fit c.made c.made.inputs (names c.made.outputs)

all-regular : all regular switch_cases ≡ true
unfolding regular all_fit fits switch_cases
all-regular = refl

all_fit-declared_inputs :
    (c : ResourceClass) (args : Fields) (l : List Assignment) (ks : List String)
    → all_fit c l ks ≡ true
    → expected_inputs l args ≡ declared_inputs c args ks
unfolding all_fit fits
all_fit-declared_inputs c args [] [] h = refl
all_fit-declared_inputs c args (assign j text ∷ l) (k ∷ ks) h = ground (
  arith,
  all_fit-declared_inputs c args l ks,
  eq_iff j k,
  eq_iff text (api_version_of c),
  eq_iff text (kind_of c),
)
all_fit-declared_inputs c args (copy j ∷ l) (k ∷ ks) h =
    ground (arith, all_fit-declared_inputs c args l ks, eq_iff j k)
all_fit-declared_inputs c args [] (k ∷ ks) h = cc
all_fit-declared_inputs c args (a ∷ l) [] h = cc

-- Made from an object, the class of a case gives the base class one input for each output that it
-- declares, in the order of the declarations: its own API version and kind, whatever the object
-- says, and the object's own property for every other.
pub populate-case :
    (text : String) (c : Case) (args : Fields)
    → find_case text switch_cases ≡ some c
    → populate c.made (object args) ≡ ok (declared_inputs c.made args (names c.made.outputs))
populate-case text c args found =
    populate-object c.made args (find_case-IsCoherent text c found).1.distinct_inputs
    ∙ ap ok (
        all_fit-declared_inputs c.made args c.made.inputs (names c.made.outputs)
          (unfold regular in (find_case-all regular text switch_cases c all-regular found).0))
