-- ===== src/Types/Input/RbacV1.antt =====
-- The interfaces of the namespace `rbac.v1` of pack/nodejs/types/input.ts.
use pulumi_kubernetes.Common.{List, [], ◌∷◌}
use pulumi_kubernetes.Types.Shape.{
  Interface, guarded, interface, required, optional, text, list, ref,
}

abbrev pub aggregation_rule : Interface
aggregation_rule =
    interface "AggregationRule"
      (optional "clusterRoleSelectors" (list (ref "meta.v1" "LabelSelector")) ∷ [])

abbrev pub cluster_role : Interface
cluster_role = guarded "ClusterRole" "rbac.authorization.k8s.io/v1" "ClusterRole" (
    required "rules" (list (ref "rbac.v1" "PolicyRule"))
    ∷ optional "aggregationRule" (ref "rbac.v1" "AggregationRule")
    ∷ optional "apiVersion" text
    ∷ optional "kind" text
    ∷ optional "metadata" (ref "meta.v1" "ObjectMeta")
    ∷ [])

abbrev pub cluster_role_binding : Interface
cluster_role_binding =
    guarded "ClusterRoleBinding" "rbac.authorization.k8s.io/v1" "ClusterRoleBinding" (
      required "roleRef" (ref "rbac.v1" "RoleRef")
      ∷ required "subjects" (list (ref "rbac.v1" "Subject"))
      ∷ optional "apiVersion" text
      ∷ optional "kind" text
      ∷ optional "metadata" (ref "meta.v1" "ObjectMeta")
      ∷ [])

abbrev pub cluster_role_binding_list : Interface
cluster_role_binding_list =
    guarded "ClusterRoleBindingList" "rbac.authorization.k8s.io/v1" "ClusterRoleBindingList" (
      required "items" (list (ref "rbac.v1" "ClusterRoleBinding"))
      ∷ optional "apiVersion" text
      ∷ optional "kind" text
      ∷ optional "metadata" (ref "meta.v1" "ListMeta")
      ∷ [])

abbrev pub cluster_role_list : Interface
cluster_role_list = guarded "ClusterRoleList" "rbac.authorization.k8s.io/v1" "ClusterRoleList" (
    required "items" (list (ref "rbac.v1" "ClusterRole"))
    ∷ optional "apiVersion" text
    ∷ optional "kind" text
    ∷ optional "metadata" (ref "meta.v1" "ListMeta")
    ∷ [])

abbrev pub policy_rule : Interface
policy_rule = interface "PolicyRule" (
    required "verbs" (list text)
    ∷ optional "apiGroups" (list text)
    ∷ optional "nonResourceURLs" (list text)
    ∷ optional "resourceNames" (list text)
    ∷ optional "resources" (list text)
    ∷ [])

abbrev pub role : Interface
role = guarded "Role" "rbac.authorization.k8s.io/v1" "Role" (
    required "rules" (list (ref "rbac.v1" "PolicyRule"))
    ∷ optional "apiVersion" text
    ∷ optional "kind" text
    ∷ optional "metadata" (ref "meta.v1" "ObjectMeta")
    ∷ [])

abbrev pub role_binding : Interface
role_binding = guarded "RoleBinding" "rbac.authorization.k8s.io/v1" "RoleBinding" (
    required "roleRef" (ref "rbac.v1" "RoleRef")
    ∷ required "subjects" (list (ref "rbac.v1" "Subject"))
    ∷ optional "apiVersion" text
    ∷ optional "kind" text
    ∷ optional "metadata" (ref "meta.v1" "ObjectMeta")
    ∷ [])

abbrev pub role_binding_list : Interface
role_binding_list = guarded "RoleBindingList" "rbac.authorization.k8s.io/v1" "RoleBindingList" (
    required "items" (list (ref "rbac.v1" "RoleBinding"))
    ∷ optional "apiVersion" text
    ∷ optional "kind" text
    ∷ optional "metadata" (ref "meta.v1" "ListMeta")
    ∷ [])

abbrev pub role_list : Interface
role_list = guarded "RoleList" "rbac.authorization.k8s.io/v1" "RoleList" (
    required "items" (list (ref "rbac.v1" "Role"))
    ∷ optional "apiVersion" text
    ∷ optional "kind" text
    ∷ optional "metadata" (ref "meta.v1" "ListMeta")
    ∷ [])

abbrev pub role_ref : Interface
role_ref =
    interface "RoleRef"
      (required "apiGroup" text ∷ required "kind" text ∷ required "name" text ∷ [])

abbrev pub subject : Interface
subject = interface "Subject" (
    required "kind" text
    ∷ required "name" text
    ∷ optional "apiGroup" text
    ∷ optional "namespace" text
    ∷ [])

abbrev pub interfaces : List Interface
interfaces =
    aggregation_rule ∷ cluster_role ∷ cluster_role_binding ∷ cluster_role_binding_list
    ∷ cluster_role_list ∷ policy_rule ∷ role ∷ role_binding ∷ role_binding_list ∷ role_list
    ∷ role_ref ∷ subject ∷ []
