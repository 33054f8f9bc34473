-- ===== src/Resources/Rbac/V1alpha1.antt =====
-- The classes of the namespace `rbac.v1alpha1` of pack/nodejs/provider.ts.
use pulumi_kubernetes.Common.{[], ◌∷◌}
use pulumi_kubernetes.Resources.Class.{ResourceClass, assign, copy}

abbrev pub cluster_role : ResourceClass
cluster_role = record {
  name = ("rbac.v1alpha1", "ClusterRole");
  token = "kubernetes:rbac.authorization.k8s.io/v1alpha1:ClusterRole";
  args = ("rbac.v1alpha1", "ClusterRole");
  outputs =
      ("aggregationRule", "outputApi.rbac.v1alpha1.AggregationRule")
      ∷ ("apiVersion", "string")
      ∷ ("kind", "string")
      ∷ ("metadata", "outputApi.meta.v1.ObjectMeta")
      ∷ ("rules", "outputApi.rbac.v1alpha1.PolicyRule[]")
      ∷ [];
  inputs =
      copy "aggregationRule"
      ∷ assign "apiVersion" "rbac.authorization.k8s.io/v1alpha1"
      ∷ assign "kind" "ClusterRole"
      ∷ copy "metadata"
      ∷ copy "rules"
      ∷ [];
}

abbrev pub cluster_role_binding : ResourceClass
cluster_role_binding = record {
  name = ("rbac.v1alpha1", "ClusterRoleBinding");
  token = "kubernetes:rbac.authorization.k8s.io/v1alpha1:ClusterRoleBinding";
  args = ("rbac.v1alpha1", "ClusterRoleBinding");
  outputs =
      ("apiVersion", "string")
      ∷ ("kind", "string")
      ∷ ("metadata", "outputApi.meta.v1.ObjectMeta")
      ∷ ("roleRef", "outputApi.rbac.v1alpha1.RoleRef")
      ∷ ("subjects", "outputApi.rbac.v1alpha1.Subject[]")
      ∷ [];
  inputs =
      assign "apiVersion" "rbac.authorization.k8s.io/v1alpha1"
      ∷ assign "kind" "ClusterRoleBinding"
      ∷ copy "metadata"
      ∷ copy "roleRef"
      ∷ copy "subjects"
      ∷ [];
}

abbrev pub cluster_role_binding_list : ResourceClass
cluster_role_binding_list = record {
  name = ("rbac.v1alpha1", "ClusterRoleBindingList");
  token = "kubernetes:rbac.authorization.k8s.io/v1alpha1:ClusterRoleBindingList";
  args = ("rbac.v1alpha1", "ClusterRoleBindingList");
  outputs =
      ("apiVersion", "string")
      ∷ ("items", "outputApi.rbac.v1alpha1.ClusterRoleBinding[]")
      ∷ ("kind", "string")
      ∷ ("metadata", "outputApi.meta.v1.ListMeta")
      ∷ [];
  inputs =
      assign "apiVersion" "rbac.authorization.k8s.io/v1alpha1"
      ∷ copy "items"
      ∷ assign "kind" "ClusterRoleBindingList"
      ∷ copy "metadata"
      ∷ [];
}

abbrev pub cluster_role_list : ResourceClass
cluster_role_list = record {
  name = ("rbac.v1alpha1", "ClusterRoleList");
  token = "kubernetes:rbac.authorization.k8s.io/v1alpha1:ClusterRoleList";
  args = ("rbac.v1alpha1", "ClusterRoleList");
  outputs =
      ("apiVersion", "string")
      ∷ ("items", "outputApi.rbac.v1alpha1.ClusterRole[]")
      ∷ ("kind", "string")
      ∷ ("metadata", "outputApi.meta.v1.ListMeta")
      ∷ [];
  inputs =
      assign "apiVersion" "rbac.authorization.k8s.io/v1alpha1"
      ∷ copy "items"
      ∷ assign "kind" "ClusterRoleList"
      ∷ copy "metadata"
      ∷ [];
}

abbrev pub role : ResourceClass
role = record {
  name = ("rbac.v1alpha1", "Role");
  token = "kubernetes:rbac.authorization.k8s.io/v1alpha1:Role";
  args = ("rbac.v1alpha1", "Role");
  outputs =
      ("apiVersion", "string")
      ∷ ("kind", "string")
      ∷ ("metadata", "outputApi.meta.v1.ObjectMeta")
      ∷ ("rules", "outputApi.rbac.v1alpha1.PolicyRule[]")
      ∷ [];
  inputs =
      assign "apiVersion" "rbac.authorization.k8s.io/v1alpha1"
      ∷ assign "kind" "Role"
      ∷ copy "metadata"
      ∷ copy "rules"
      ∷ [];
}

abbrev pub role_binding : ResourceClass
role_binding = record {
  name = ("rbac.v1alpha1", "RoleBinding");
  token = "kubernetes:rbac.authorization.k8s.io/v1alpha1:RoleBinding";
  args = ("rbac.v1alpha1", "RoleBinding");
  outputs =
      ("apiVersion", "string")
      ∷ ("kind", "string")
      ∷ ("metadata", "outputApi.meta.v1.ObjectMeta")
      ∷ ("roleRef", "outputApi.rbac.v1alpha1.RoleRef")
      ∷ ("subjects", "outputApi.rbac.v1alpha1.Subject[]")
      ∷ [];
  inputs =
      assign "apiVersion" "rbac.authorization.k8s.io/v1alpha1"
      ∷ assign "kind" "RoleBinding"
      ∷ copy "metadata"
      ∷ copy "roleRef"
      ∷ copy "subjects"
      ∷ [];
}

abbrev pub role_binding_list : ResourceClass
role_binding_list = record {
  name = ("rbac.v1alpha1", "RoleBindingList");
  token = "kubernetes:rbac.authorization.k8s.io/v1alpha1:RoleBindingList";
  args = ("rbac.v1alpha1", "RoleBindingList");
  outputs =
      ("apiVersion", "string")
      ∷ ("items", "outputApi.rbac.v1alpha1.RoleBinding[]")
      ∷ ("kind", "string")
      ∷ ("metadata", "outputApi.meta.v1.ListMeta")
      ∷ [];
  inputs =
      assign "apiVersion" "rbac.authorization.k8s.io/v1alpha1"
      ∷ copy "items"
      ∷ assign "kind" "RoleBindingList"
      ∷ copy "metadata"
      ∷ [];
}

abbrev pub role_list : ResourceClass
role_list = record {
  name = ("rbac.v1alpha1", "RoleList");
  token = "kubernetes:rbac.authorization.k8s.io/v1alpha1:RoleList";
  args = ("rbac.v1alpha1", "RoleList");
  outputs =
      ("apiVersion", "string")
      ∷ ("items", "outputApi.rbac.v1alpha1.Role[]")
      ∷ ("kind", "string")
      ∷ ("metadata", "outputApi.meta.v1.ListMeta")
      ∷ [];
  inputs =
      assign "apiVersion" "rbac.authorization.k8s.io/v1alpha1"
      ∷ copy "items"
      ∷ assign "kind" "RoleList"
      ∷ copy "metadata"
      ∷ [];
}

abbrev pub subject : ResourceClass
subject = record {
  name = ("rbac.v1alpha1", "Subject");
  token = "kubernetes:rbac/v1alpha1:Subject";
  args = ("rbac.v1alpha1", "Subject");
  outputs =
      ("apiVersion", "string")
      ∷ ("kind", "string")
      ∷ ("name", "string")
      ∷ ("namespace", "string")
      ∷ [];
  inputs =
      assign "apiVersion" "rbac/v1alpha1"
      ∷ assign "kind" "Subject"
      ∷ copy "name"
      ∷ copy "namespace"
      ∷ [];
}
