-- ===== src/Types/Output/RbacV1beta1.antt =====
-- The interfaces of the namespace `rbac.v1beta1` of pack/nodejs/types/output.ts.
use pulumi_kubernetes.Common.{List, [], ◌∷◌}
use pulumi_kubernetes.Types.Shape.{Interface, interface, readonly, text, list, ref}

abbrev pub aggregation_rule : Interface
aggregation_rule =
    interface "AggregationRule"
      (readonly "clusterRoleSelectors" (list (ref "meta.v1" "LabelSelector")) ∷ [])

abbrev pub cluster_role : Interface
cluster_role = interface "ClusterRole" (
    readonly "aggregationRule" (ref "rbac.v1beta1" "AggregationRule")
    ∷ readonly "apiVersion" text
    ∷ readonly "kind" text
    ∷ readonly "metadata" (ref "meta.v1" "ObjectMeta")
    ∷ readonly "rules" (list (ref "rbac.v1beta1" "PolicyRule"))
    ∷ [])

abbrev pub cluster_role_binding : Interface
cluster_role_binding = interface "ClusterRoleBinding" (
    readonly "apiVersion" text
    ∷ readonly "kind" text
    ∷ readonly "metadata" (ref "meta.v1" "ObjectMeta")
    ∷ readonly "roleRef" (ref "rbac.v1beta1" "RoleRef")
    ∷ readonly "subjects" (list (ref "rbac.v1beta1" "Subject"))
    ∷ [])

abbrev pub cluster_role_binding_list : Interface
cluster_role_binding_list = interface "ClusterRoleBindingList" (
    readonly "apiVersion" text
    ∷ readonly "items" (list (ref "rbac.v1beta1" "ClusterRoleBinding"))
    ∷ readonly "kind" text
    ∷ readonly "metadata" (ref "meta.v1" "ListMeta")
    ∷ [])

abbrev pub cluster_role_list : Interface
cluster_role_list = interface "ClusterRoleList" (
    readonly "apiVersion" text
    ∷ readonly "items" (list (ref "rbac.v1beta1" "ClusterRole"))
    ∷ readonly "kind" text
    ∷ readonly "metadata" (ref "meta.v1" "ListMeta")
    ∷ [])

abbrev pub policy_rule : Interface
policy_rule = interface "PolicyRule" (
    readonly "apiGroups" (list text)
    ∷ readonly "nonResourceURLs" (list text)
    ∷ readonly "resourceNames" (list text)
    ∷ readonly "resources" (list text)
    ∷ readonly "verbs" (list text)
    ∷ [])

abbrev pub role : Interface
role = interface "Role" (
    readonly "apiVersion" text
    ∷ readonly "kind" text
    ∷ readonly "metadata" (ref "meta.v1" "ObjectMeta")
    ∷ readonly "rules" (list (ref "rbac.v1beta1" "PolicyRule"))
    ∷ [])

abbrev pub role_binding : Interface
role_binding = interface "RoleBinding" (
    readonly "apiVersion" text
    ∷ readonly "kind" text
    ∷ readonly "metadata" (ref "meta.v1" "ObjectMeta")
    ∷ readonly "roleRef" (ref "rbac.v1beta1" "RoleRef")
    ∷ readonly "subjects" (list (ref "rbac.v1beta1" "Subject"))
    ∷ [])

abbrev pub role_binding_list : Interface
role_binding_list = interface "RoleBindingList" (
    readonly "apiVersion" text
    ∷ readonly "items" (list (ref "rbac.v1beta1" "RoleBinding"))
    ∷ readonly "kind" text
    ∷ readonly "metadata" (ref "meta.v1" "ListMeta")
    ∷ [])

abbrev pub role_list : Interface
role_list = interface "RoleList" (
    readonly "apiVersion" text
    ∷ readonly "items" (list (ref "rbac.v1beta1" "Role"))
    ∷ readonly "kind" text
    ∷ readonly "metadata" (ref "meta.v1" "ListMeta")
    ∷ [])

abbrev pub role_ref : Interface
role_ref =
    interface "RoleRef"
      (readonly "apiGroup" text ∷ readonly "kind" text ∷ readonly "name" text ∷ [])

abbrev pub subject : Interface
subject = interface "Subject" (
    readonly "apiGroup" text
    ∷ readonly "kind" text
    ∷ readonly "name" text
    ∷ readonly "namespace" text
    ∷ [])

abbrev pub interfaces : List Interface
interfaces =
    aggregation_rule ∷ cluster_role ∷ cluster_role_binding ∷ cluster_role_binding_list
    ∷ cluster_role_list ∷ policy_rule ∷ role ∷ role_binding ∷ role_binding_list ∷ role_list
    ∷ role_ref ∷ subject ∷ []
