-- ===== src/Resources/Extensions/V1beta1.antt =====
-- The classes of the namespace `extensions.v1beta1` of pack/nodejs/provider.ts.
use pulumi_kubernetes.Common.{[], ◌∷◌}
use pulumi_kubernetes.Resources.Class.{ResourceClass, assign, copy}

abbrev pub daemon_set : ResourceClass
daemon_set = record {
  name = ("extensions.v1beta1", "DaemonSet");
  token = "kubernetes:extensions/v1beta1:DaemonSet";
  args = ("extensions.v1beta1", "DaemonSet");
  outputs =
      ("apiVersion", "string")
      ∷ ("kind", "string")
      ∷ ("metadata", "outputApi.meta.v1.ObjectMeta")
      ∷ ("spec", "outputApi.extensions.v1beta1.DaemonSetSpec")
      ∷ ("status", "outputApi.extensions.v1beta1.DaemonSetStatus")
      ∷ [];
  inputs =
      assign "apiVersion" "extensions/v1beta1"
      ∷ assign "kind" "DaemonSet"
      ∷ copy "metadata"
      ∷ copy "spec"
      ∷ copy "status"
      ∷ [];
}

abbrev pub daemon_set_list : ResourceClass
daemon_set_list = record {
  name = ("extensions.v1beta1", "DaemonSetList");
  token = "kubernetes:extensions/v1beta1:DaemonSetList";
  args = ("extensions.v1beta1", "DaemonSetList");
  outputs =
      ("apiVersion", "string")
      ∷ ("items", "outputApi.extensions.v1beta1.DaemonSet[]")
      ∷ ("kind", "string")
      ∷ ("metadata", "outputApi.meta.v1.ListMeta")
      ∷ [];
  inputs =
      assign "apiVersion" "extensions/v1beta1"
      ∷ copy "items"
      ∷ assign "kind" "DaemonSetList"
      ∷ copy "metadata"
      ∷ [];
}

abbrev pub deployment : ResourceClass
deployment = record {
  name = ("extensions.v1beta1", "Deployment");
  token = "kubernetes:extensions/v1beta1:Deployment";
  args = ("extensions.v1beta1", "Deployment");
  outputs =
      ("apiVersion", "string")
      ∷ ("kind", "string")
      ∷ ("metadata", "outputApi.meta.v1.ObjectMeta")
      ∷ ("spec", "outputApi.extensions.v1beta1.DeploymentSpec")
      ∷ ("status", "outputApi.extensions.v1beta1.DeploymentStatus")
      ∷ [];
  inputs =
      assign "apiVersion" "extensions/v1beta1"
      ∷ assign "kind" "Deployment"
      ∷ copy "metadata"
      ∷ copy "spec"
      ∷ copy "status"
      ∷ [];
}

abbrev pub deployment_list : ResourceClass
deployment_list = record {
  name = ("extensions.v1beta1", "DeploymentList");
  token = "kubernetes:extensions/v1beta1:DeploymentList";
  args = ("extensions.v1beta1", "DeploymentList");
  outputs =
      ("apiVersion", "string")
      ∷ ("items", "outputApi.extensions.v1beta1.Deployment[]")
      ∷ ("kind", "string")
      ∷ ("metadata", "outputApi.meta.v1.ListMeta")
      ∷ [];
  inputs =
      assign "apiVersion" "extensions/v1beta1"
      ∷ copy "items"
      ∷ assign "kind" "DeploymentList"
      ∷ copy "metadata"
      ∷ [];
}

abbrev pub deployment_rollback : ResourceClass
deployment_rollback = record {
  name = ("extensions.v1beta1", "DeploymentRollback");
  token = "kubernetes:extensions/v1beta1:DeploymentRollback";
  args = ("extensions.v1beta1", "DeploymentRollback");
  outputs =
      ("apiVersion", "string")
      ∷ ("kind", "string")
      ∷ ("name", "string")
      ∷ ("rollbackTo", "outputApi.extensions.v1beta1.RollbackConfig")
      ∷ ("updatedAnnotations", "{[key: string]: pulumi.Output<string>}")
      ∷ [];
  inputs =
      assign "apiVersion" "extensions/v1beta1"
      ∷ assign "kind" "DeploymentRollback"
      ∷ copy "name"
      ∷ copy "rollbackTo"
      ∷ copy "updatedAnnotations"
      ∷ [];
}

abbrev pub ingress : ResourceClass
ingress = record {
  name = ("extensions.v1beta1", "Ingress");
  token = "kubernetes:extensions/v1beta1:Ingress";
  args = ("extensions.v1beta1", "Ingress");
  outputs =
      ("apiVersion", "string")
      ∷ ("kind", "string")
      ∷ ("metadata", "outputApi.meta.v1.ObjectMeta")
      ∷ ("spec", "outputApi.extensions.v1beta1.IngressSpec")
      ∷ ("status", "outputApi.extensions.v1beta1.IngressStatus")
      ∷ [];
  inputs =
      assign "apiVersion" "extensions/v1beta1"
      ∷ assign "kind" "Ingress"
      ∷ copy "metadata"
      ∷ copy "spec"
      ∷ copy "status"
      ∷ [];
}

abbrev pub ingress_list : ResourceClass
ingress_list = record {
  name = ("extensions.v1beta1", "IngressList");
  token = "kubernetes:extensions/v1beta1:IngressList";
  args = ("extensions.v1beta1", "IngressList");
  outputs =
      ("apiVersion", "string")
      ∷ ("items", "outputApi.extensions.v1beta1.Ingress[]")
      ∷ ("kind", "string")
      ∷ ("metadata", "outputApi.meta.v1.ListMeta")
      ∷ [];
  inputs =
      assign "apiVersion" "extensions/v1beta1"
      ∷ copy "items"
      ∷ assign "kind" "IngressList"
      ∷ copy "metadata"
      ∷ [];
}

abbrev pub network_policy : ResourceClass
network_policy = record {
  name = ("extensions.v1beta1", "NetworkPolicy");
  token = "kubernetes:extensions/v1beta1:NetworkPolicy";
  args = ("extensions.v1beta1", "NetworkPolicy");
  outputs =
      ("apiVersion", "string")
      ∷ ("kind", "string")
      ∷ ("metadata", "outputApi.meta.v1.ObjectMeta")
      ∷ ("spec", "outputApi.extensions.v1beta1.NetworkPolicySpec")
      ∷ [];
  inputs =
      assign "apiVersion" "extensions/v1beta1"
      ∷ assign "kind" "NetworkPolicy"
      ∷ copy "metadata"
      ∷ copy "spec"
      ∷ [];
}

abbrev pub network_policy_list : ResourceClass
network_policy_list = record {
  name = ("extensions.v1beta1", "NetworkPolicyList");
  token = "kubernetes:extensions/v1beta1:NetworkPolicyList";
  args = ("extensions.v1beta1", "NetworkPolicyList");
  outputs =
      ("apiVersion", "string")
      ∷ ("items", "outputApi.extensions.v1beta1.NetworkPolicy[]")
      ∷ ("kind", "string")
      ∷ ("metadata", "outputApi.meta.v1.ListMeta")
      ∷ [];
  inputs =
      assign "apiVersion" "extensions/v1beta1"
      ∷ copy "items"
      ∷ assign "kind" "NetworkPolicyList"
      ∷ copy "metadata"
      ∷ [];
}

abbrev pub pod_security_policy : ResourceClass
pod_security_policy = record {
  name = ("extensions.v1beta1", "PodSecurityPolicy");
  token = "kubernetes:extensions/v1beta1:PodSecurityPolicy";
  args = ("extensions.v1beta1", "PodSecurityPolicy");
  outputs =
      ("apiVersion", "string")
      ∷ ("kind", "string")
      ∷ ("metadata", "outputApi.meta.v1.ObjectMeta")
      ∷ ("spec", "outputApi.extensions.v1beta1.PodSecurityPolicySpec")
      ∷ [];
  inputs =
      assign "apiVersion" "extensions/v1beta1"
      ∷ assign "kind" "PodSecurityPolicy"
      ∷ copy "metadata"
      ∷ copy "spec"
      ∷ [];
}

abbrev pub pod_security_policy_list : ResourceClass
pod_security_policy_list = record {
  name = ("extensions.v1beta1", "PodSecurityPolicyList");
  token = "kubernetes:extensions/v1beta1:PodSecurityPolicyList";
  args = ("extensions.v1beta1", "PodSecurityPolicyList");
  outputs =
      ("apiVersion", "string")
      ∷ ("items", "outputApi.extensions.v1beta1.PodSecurityPolicy[]")
      ∷ ("kind", "string")
      ∷ ("metadata", "outputApi.meta.v1.ListMeta")
      ∷ [];
  inputs =
      assign "apiVersion" "extensions/v1beta1"
      ∷ copy "items"
      ∷ assign "kind" "PodSecurityPolicyList"
      ∷ copy "metadata"
      ∷ [];
}

abbrev pub replica_set : ResourceClass
replica_set = record {
  name = ("extensions.v1beta1", "ReplicaSet");
  token = "kubernetes:extensions/v1beta1:ReplicaSet";
  args = ("extensions.v1beta1", "ReplicaSet");
  outputs =
      ("apiVersion", "string")
      ∷ ("kind", "string")
      ∷ ("metadata", "outputApi.meta.v1.ObjectMeta")
      ∷ ("spec", "outputApi.extensions.v1beta1.ReplicaSetSpec")
      ∷ ("status", "outputApi.extensions.v1beta1.ReplicaSetStatus")
      ∷ [];
  inputs =
      assign "apiVersion" "extensions/v1beta1"
      ∷ assign "kind" "ReplicaSet"
      ∷ copy "metadata"
      ∷ copy "spec"
      ∷ copy "status"
      ∷ [];
}

abbrev pub replica_set_list : ResourceClass
replica_set_list = record {
  name = ("extensions.v1beta1", "ReplicaSetList");
  token = "kubernetes:extensions/v1beta1:ReplicaSetList";
  args = ("extensions.v1beta1", "ReplicaSetList");
  outputs =
      ("apiVersion", "string")
      ∷ ("items", "outputApi.extensions.v1beta1.ReplicaSet[]")
      ∷ ("kind", "string")
      ∷ ("metadata", "outputApi.meta.v1.ListMeta")
      ∷ [];
  inputs =
      assign "apiVersion" "extensions/v1beta1"
      ∷ copy "items"
      ∷ assign "kind" "ReplicaSetList"
      ∷ copy "metadata"
      ∷ [];
}

abbrev pub scale : ResourceClass
scale = record {
  name = ("extensions.v1beta1", "Scale");
  token = "kubernetes:extensions/v1beta1:Scale";
  args = ("extensions.v1beta1", "Scale");
  outputs =
      ("apiVersion", "string")
      ∷ ("kind", "string")
      ∷ ("metadata", "outputApi.meta.v1.ObjectMeta")
      ∷ ("spec", "outputApi.extensions.v1beta1.ScaleSpec")
      ∷ ("status", "outputApi.extensions.v1beta1.ScaleStatus")
      ∷ [];
  inputs =
      assign "apiVersion" "extensions/v1beta1"
      ∷ assign "kind" "Scale"
      ∷ copy "metadata"
      ∷ copy "spec"
      ∷ copy "status"
      ∷ [];
}
