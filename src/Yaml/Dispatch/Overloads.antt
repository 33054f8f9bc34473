-- ===== src/Yaml/Dispatch/Overloads.antt =====
-- The types that the overloads of `getResource` promise, which its cast does not check.
use pulumi_kubernetes.Common.{String, ◌≡◌, refl, arith, Option, none, some, List, [], ◌∷◌, map}
use pulumi_kubernetes.Common.Dict.{lookup}
use pulumi_kubernetes.Yaml.Case.{Case}
use pulumi_kubernetes.Yaml.Switch.{switch_cases}
use pulumi_kubernetes.Yaml.Object.{find_case}
use pulumi_kubernetes.Yaml.Collection.Overloads.{get_resource_overloads}

abbrev entry : Case → String × (String × String)
entry c = (c.label, c.made.name)

-- The class that a case makes, by the namespace and the name that it is declared with.
abbrev pub class_of : Option Case → Option (String × String)
class_of none = none
class_of (some c) = some c.made.name

same_classes : map entry switch_cases ≡ get_resource_overloads
unfolding switch_cases get_resource_overloads
same_classes = refl

lookup-entry :
    (text : String) (cases : List Case)
    → lookup text (map entry cases) ≡ class_of (find_case text cases)
unfolding lookup find_case
lookup-entry text [] = refl
lookup-entry text (c ∷ cases) = ground (arith, lookup-entry text cases)

-- The overloads of `getResource` name the types that `parseYamlObject` has a case for, and no other,
-- and each promises the class that the case makes, by its namespace and name.
pub get_resource_overloads-find_case :
    (text : String) → lookup text get_resource_overloads ≡ class_of (find_case text switch_cases)
get_resource_overloads-find_case text = rw (← same_classes) (lookup-entry text switch_cases)
