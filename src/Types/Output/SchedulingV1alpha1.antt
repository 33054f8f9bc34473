-- ===== src/Types/Output/SchedulingV1alpha1.antt =====
-- The interfaces of the namespace `scheduling.v1alpha1` of pack/nodejs/types/output.ts.
use pulumi_kubernetes.Common.{List, [], ◌∷◌}
use pulumi_kubernetes.Types.Shape.{Interface, interface, readonly, text, number, boolean, list, ref}

abbrev pub priority_class : Interface
priority_class = interface "PriorityClass" (
    readonly "apiVersion" text
    ∷ readonly "description" text
    ∷ readonly "globalDefault" boolean
    ∷ readonly "kind" text
    ∷ readonly "metadata" (ref "meta.v1" "ObjectMeta")
    ∷ readonly "value" number
    ∷ [])

abbrev pub priority_class_list : Interface
priority_class_list = interface "PriorityClassList" (
    readonly "apiVersion" text
    ∷ readonly "items" (list (ref "scheduling.v1alpha1" "PriorityClass"))
    ∷ readonly "kind" text
    ∷ readonly "metadata" (ref "meta.v1" "ListMeta")
    ∷ [])

abbrev pub interfaces : List Interface
interfaces = priority_class ∷ priority_class_list ∷ []
