-- ===== src/Types/Input/SchedulingV1alpha1.antt =====
-- The interfaces of the namespace `scheduling.v1alpha1` of pack/nodejs/types/input.ts.
use pulumi_kubernetes.Common.{List, [], ◌∷◌}
use pulumi_kubernetes.Types.Shape.{
  Interface, guarded, required, optional, text, number, boolean, list, ref,
}

abbrev pub priority_class : Interface
priority_class = guarded "PriorityClass" "scheduling.k8s.io/v1alpha1" "PriorityClass" (
    required "value" number
    ∷ optional "apiVersion" text
    ∷ optional "description" text
    ∷ optional "globalDefault" boolean
    ∷ optional "kind" text
    ∷ optional "metadata" (ref "meta.v1" "ObjectMeta")
    ∷ [])

abbrev pub priority_class_list : Interface
priority_class_list = guarded "PriorityClassList" "scheduling.k8s.io/v1alpha1" "PriorityClassList" (
    required "items" (list (ref "scheduling.v1alpha1" "PriorityClass"))
    ∷ optional "apiVersion" text
    ∷ optional "kind" text
    ∷ optional "metadata" (ref "meta.v1" "ListMeta")
    ∷ [])

abbrev pub interfaces : List Interface
interfaces = priority_class ∷ priority_class_list ∷ []
