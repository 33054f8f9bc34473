-- ===== src/Resources/Apps/V1beta2.antt =====
-- The classes of the namespace `apps.v1beta2` of pack/nodejs/provider.ts.
use pulumi_kubernetes.Common.{[], ◌∷◌}
use pulumi_kubernetes.Resources.Class.{ResourceClass, assign, copy}

abbrev pub controller_revision : ResourceClass
controller_revision = record {
  name = ("apps.v1beta2", "ControllerRevision");
  token = "kubernetes:apps/v1beta2:ControllerRevision";
  args = ("apps.v1beta2", "ControllerRevision");
  outputs =
      ("apiVersion", "string")
      ∷ ("data", "outputApi.pkg.runtime.RawExtension")
      ∷ ("kind", "string")
      ∷ ("metadata", "outputApi.meta.v1.ObjectMeta")
      ∷ ("revision", "number")
      ∷ [];
  inputs =
      assign "apiVersion" "apps/v1beta2"
      ∷ copy "data"
      ∷ assign "kind" "ControllerRevision"
      ∷ copy "metadata"
      ∷ copy "revision"
      ∷ [];
}

abbrev pub controller_revision_list : ResourceClass
controller_revision_list = record {
  name = ("apps.v1beta2", "ControllerRevisionList");
  token = "kubernetes:apps/v1beta2:ControllerRevisionList";
  args = ("apps.v1beta2", "ControllerRevisionList");
  outputs =
      ("apiVersion", "string")
      ∷ ("items", "outputApi.apps.v1beta2.ControllerRevision[]")
      ∷ ("kind", "string")
      ∷ ("metadata", "outputApi.meta.v1.ListMeta")
      ∷ [];
  inputs =
      assign "apiVersion" "apps/v1beta2"
      ∷ copy "items"
      ∷ assign "kind" "ControllerRevisionList"
      ∷ copy "metadata"
      ∷ [];
}

abbrev pub daemon_set : ResourceClass
daemon_set = record {
  name = ("apps.v1beta2", "DaemonSet");
  token = "kubernetes:apps/v1beta2:DaemonSet";
  args = ("apps.v1beta2", "DaemonSet");
  outputs =
      ("apiVersion", "string")
      ∷ ("kind", "string")
      ∷ ("metadata", "outputApi.meta.v1.ObjectMeta")
      ∷ ("spec", "outputApi.apps.v1beta2.DaemonSetSpec")
      ∷ ("status", "outputApi.apps.v1beta2.DaemonSetStatus")
      ∷ [];
  inputs =
      assign "apiVersion" "apps/v1beta2"
      ∷ assign "kind" "DaemonSet"
      ∷ copy "metadata"
      ∷ copy "spec"
      ∷ copy "status"
      ∷ [];
}

abbrev pub daemon_set_list : ResourceClass
daemon_set_list = record {
  name = ("apps.v1beta2", "DaemonSetList");
  token = "kubernetes:apps/v1beta2:DaemonSetList";
  args = ("apps.v1beta2", "DaemonSetList");
  outputs =
      ("apiVersion", "string")
      ∷ ("items", "outputApi.apps.v1beta2.DaemonSet[]")
      ∷ ("kind", "string")
      ∷ ("metadata", "outputApi.meta.v1.ListMeta")
      ∷ [];
  inputs =
      assign "apiVersion" "apps/v1beta2"
      ∷ copy "items"
      ∷ assign "kind" "DaemonSetList"
      ∷ copy "metadata"
      ∷ [];
}

abbrev pub deployment : ResourceClass
deployment = record {
  name = ("apps.v1beta2", "Deployment");
  token = "kubernetes:apps/v1beta2:Deployment";
  args = ("apps.v1beta2", "Deployment");
  outputs =
      ("apiVersion", "string")
      ∷ ("kind", "string")
      ∷ ("metadata", "outputApi.meta.v1.ObjectMeta")
      ∷ ("spec", "outputApi.apps.v1beta2.DeploymentSpec")
      ∷ ("status", "outputApi.apps.v1beta2.DeploymentStatus")
      ∷ [];
  inputs =
      assign "apiVersion" "apps/v1beta2"
      ∷ assign "kind" "Deployment"
      ∷ copy "metadata"
      ∷ copy "spec"
      ∷ copy "status"
      ∷ [];
}

abbrev pub deployment_list : ResourceClass
deployment_list = record {
  name = ("apps.v1beta2", "DeploymentList");
  token = "kubernetes:apps/v1beta2:DeploymentList";
  args = ("apps.v1beta2", "DeploymentList");
  outputs =
      ("apiVersion", "string")
      ∷ ("items", "outputApi.apps.v1beta2.Deployment[]")
      ∷ ("kind", "string")
      ∷ ("metadata", "outputApi.meta.v1.ListMeta")
      ∷ [];
  inputs =
      assign "apiVersion" "apps/v1beta2"
      ∷ copy "items"
      ∷ assign "kind" "DeploymentList"
      ∷ copy "metadata"
      ∷ [];
}

abbrev pub replica_set : ResourceClass
replica_set = record {
  name = ("apps.v1beta2", "ReplicaSet");
  token = "kubernetes:apps/v1beta2:ReplicaSet";
  args = ("apps.v1beta2", "ReplicaSet");
  outputs =
      ("apiVersion", "string")
      ∷ ("kind", "string")
      ∷ ("metadata", "outputApi.meta.v1.ObjectMeta")
      ∷ ("spec", "outputApi.apps.v1beta2.ReplicaSetSpec")
      ∷ ("status", "outputApi.apps.v1beta2.ReplicaSetStatus")
      ∷ [];
  inputs =
      assign "apiVersion" "apps/v1beta2"
      ∷ assign "kind" "ReplicaSet"
      ∷ copy "metadata"
      ∷ copy "spec"
      ∷ copy "status"
      ∷ [];
}

abbrev pub replica_set_list : ResourceClass
replica_set_list = record {
  name = ("apps.v1beta2", "ReplicaSetList");
  token = "kubernetes:apps/v1beta2:ReplicaSetList";
  args = ("apps.v1beta2", "ReplicaSetList");
  outputs =
      ("apiVersion", "string")
      ∷ ("items", "outputApi.apps.v1beta2.ReplicaSet[]")
      ∷ ("kind", "string")
      ∷ ("metadata", "outputApi.meta.v1.ListMeta")
      ∷ [];
  inputs =
      assign "apiVersion" "apps/v1beta2"
      ∷ copy "items"
      ∷ assign "kind" "ReplicaSetList"
      ∷ copy "metadata"
      ∷ [];
}

abbrev pub scale : ResourceClass
scale = record {
  name = ("apps.v1beta2", "Scale");
  token = "kubernetes:apps/v1beta2:Scale";
  args = ("apps.v1beta2", "Scale");
  outputs =
      ("apiVersion", "string")
      ∷ ("kind", "string")
      ∷ ("metadata", "outputApi.meta.v1.ObjectMeta")
      ∷ ("spec", "outputApi.apps.v1beta2.ScaleSpec")
      ∷ ("status", "outputApi.apps.v1beta2.ScaleStatus")
      ∷ [];
  inputs =
      assign "apiVersion" "apps/v1beta2"
      ∷ assign "kind" "Scale"
      ∷ copy "metadata"
      ∷ copy "spec"
      ∷ copy "status"
      ∷ [];
}

abbrev pub stateful_set : ResourceClass
stateful_set = record {
  name = ("apps.v1beta2", "StatefulSet");
  token = "kubernetes:apps/v1beta2:StatefulSet";
  args = ("apps.v1beta2", "StatefulSet");
  outputs =
      ("apiVersion", "string")
      ∷ ("kind", "string")
      ∷ ("metadata", "outputApi.meta.v1.ObjectMeta")
      ∷ ("spec", "outputApi.apps.v1beta2.StatefulSetSpec")
      ∷ ("status", "outputApi.apps.v1beta2.StatefulSetStatus")
      ∷ [];
  inputs =
      assign "apiVersion" "apps/v1beta2"
      ∷ assign "kind" "StatefulSet"
      ∷ copy "metadata"
      ∷ copy "spec"
      ∷ copy "status"
      ∷ [];
}

abbrev pub stateful_set_list : ResourceClass
stateful_set_list = record {
  name = ("apps.v1beta2", "StatefulSetList");
  token = "kubernetes:apps/v1beta2:StatefulSetList";
  args = ("apps.v1beta2", "StatefulSetList");
  outputs =
      ("apiVersion", "string")
      ∷ ("items", "outputApi.apps.v1beta2.StatefulSet[]")
      ∷ ("kind", "string")
      ∷ ("metadata", "outputApi.meta.v1.ListMeta")
      ∷ [];
  inputs =
      assign "apiVersion" "apps/v1beta2"
      ∷ copy "items"
      ∷ assign "kind" "StatefulSetList"
      ∷ copy "metadata"
      ∷ [];
}
