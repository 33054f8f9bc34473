-- ===== src/Resources/Apps/V1.antt =====
-- The classes of the namespace `apps.v1` of pack/nodejs/provider.ts.
use pulumi_kubernetes.Common.{[], ◌∷◌}
use pulumi_kubernetes.Resources.Class.{ResourceClass, assign, copy}

abbrev pub controller_revision : ResourceClass
controller_revision = record {
  name = ("apps.v1", "ControllerRevision");
  token = "kubernetes:apps/v1:ControllerRevision";
  args = ("apps.v1", "ControllerRevision");
  outputs =
      ("apiVersion", "string")
      ∷ ("data", "outputApi.pkg.runtime.RawExtension")
      ∷ ("kind", "string")
      ∷ ("metadata", "outputApi.meta.v1.ObjectMeta")
      ∷ ("revision", "number")
      ∷ [];
  inputs =
      assign "apiVersion" "apps/v1"
      ∷ copy "data"
      ∷ assign "kind" "ControllerRevision"
      ∷ copy "metadata"
      ∷ copy "revision"
      ∷ [];
}

abbrev pub controller_revision_list : ResourceClass
controller_revision_list = record {
  name = ("apps.v1", "ControllerRevisionList");
  token = "kubernetes:apps/v1:ControllerRevisionList";
  args = ("apps.v1", "ControllerRevisionList");
  outputs =
      ("apiVersion", "string")
      ∷ ("items", "outputApi.apps.v1.ControllerRevision[]")
      ∷ ("kind", "string")
      ∷ ("metadata", "outputApi.meta.v1.ListMeta")
      ∷ [];
  inputs =
      assign "apiVersion" "apps/v1"
      ∷ copy "items"
      ∷ assign "kind" "ControllerRevisionList"
      ∷ copy "metadata"
      ∷ [];
}

abbrev pub daemon_set : ResourceClass
daemon_set = record {
  name = ("apps.v1", "DaemonSet");
  token = "kubernetes:apps/v1:DaemonSet";
  args = ("apps.v1", "DaemonSet");
  outputs =
      ("apiVersion", "string")
      ∷ ("kind", "string")
      ∷ ("metadata", "outputApi.meta.v1.ObjectMeta")
      ∷ ("spec", "outputApi.apps.v1.DaemonSetSpec")
      ∷ ("status", "outputApi.apps.v1.DaemonSetStatus")
      ∷ [];
  inputs =
      assign "apiVersion" "apps/v1"
      ∷ assign "kind" "DaemonSet"
      ∷ copy "metadata"
      ∷ copy "spec"
      ∷ copy "status"
      ∷ [];
}

abbrev pub daemon_set_list : ResourceClass
daemon_set_list = record {
  name = ("apps.v1", "DaemonSetList");
  token = "kubernetes:apps/v1:DaemonSetList";
  args = ("apps.v1", "DaemonSetList");
  outputs =
      ("apiVersion", "string")
      ∷ ("items", "outputApi.apps.v1.DaemonSet[]")
      ∷ ("kind", "string")
      ∷ ("metadata", "outputApi.meta.v1.ListMeta")
      ∷ [];
  inputs =
      assign "apiVersion" "apps/v1"
      ∷ copy "items"
      ∷ assign "kind" "DaemonSetList"
      ∷ copy "metadata"
      ∷ [];
}

abbrev pub deployment : ResourceClass
deployment = record {
  name = ("apps.v1", "Deployment");
  token = "kubernetes:apps/v1:Deployment";
  args = ("apps.v1", "Deployment");
  outputs =
      ("apiVersion", "string")
      ∷ ("kind", "string")
      ∷ ("metadata", "outputApi.meta.v1.ObjectMeta")
      ∷ ("spec", "outputApi.apps.v1.DeploymentSpec")
      ∷ ("status", "outputApi.apps.v1.DeploymentStatus")
      ∷ [];
  inputs =
      assign "apiVersion" "apps/v1"
      ∷ assign "kind" "Deployment"
      ∷ copy "metadata"
      ∷ copy "spec"
      ∷ copy "status"
      ∷ [];
}

abbrev pub deployment_list : ResourceClass
deployment_list = record {
  name = ("apps.v1", "DeploymentList");
  token = "kubernetes:apps/v1:DeploymentList";
  args = ("apps.v1", "DeploymentList");
  outputs =
      ("apiVersion", "string")
      ∷ ("items", "outputApi.apps.v1.Deployment[]")
      ∷ ("kind", "string")
      ∷ ("metadata", "outputApi.meta.v1.ListMeta")
      ∷ [];
  inputs =
      assign "apiVersion" "apps/v1"
      ∷ copy "items"
      ∷ assign "kind" "DeploymentList"
      ∷ copy "metadata"
      ∷ [];
}

abbrev pub replica_set : ResourceClass
replica_set = record {
  name = ("apps.v1", "ReplicaSet");
  token = "kubernetes:apps/v1:ReplicaSet";
  args = ("apps.v1", "ReplicaSet");
  outputs =
      ("apiVersion", "string")
      ∷ ("kind", "string")
      ∷ ("metadata", "outputApi.meta.v1.ObjectMeta")
      ∷ ("spec", "outputApi.apps.v1.ReplicaSetSpec")
      ∷ ("status", "outputApi.apps.v1.ReplicaSetStatus")
      ∷ [];
  inputs =
      assign "apiVersion" "apps/v1"
      ∷ assign "kind" "ReplicaSet"
      ∷ copy "metadata"
      ∷ copy "spec"
      ∷ copy "status"
      ∷ [];
}

abbrev pub replica_set_list : ResourceClass
replica_set_list = record {
  name = ("apps.v1", "ReplicaSetList");
  token = "kubernetes:apps/v1:ReplicaSetList";
  args = ("apps.v1", "ReplicaSetList");
  outputs =
      ("apiVersion", "string")
      ∷ ("items", "outputApi.apps.v1.ReplicaSet[]")
      ∷ ("kind", "string")
      ∷ ("metadata", "outputApi.meta.v1.ListMeta")
      ∷ [];
  inputs =
      assign "apiVersion" "apps/v1"
      ∷ copy "items"
      ∷ assign "kind" "ReplicaSetList"
      ∷ copy "metadata"
      ∷ [];
}

abbrev pub stateful_set : ResourceClass
stateful_set = record {
  name = ("apps.v1", "StatefulSet");
  token = "kubernetes:apps/v1:StatefulSet";
  args = ("apps.v1", "StatefulSet");
  outputs =
      ("apiVersion", "string")
      ∷ ("kind", "string")
      ∷ ("metadata", "outputApi.meta.v1.ObjectMeta")
      ∷ ("spec", "outputApi.apps.v1.StatefulSetSpec")
      ∷ ("status", "outputApi.apps.v1.StatefulSetStatus")
      ∷ [];
  inputs =
      assign "apiVersion" "apps/v1"
      ∷ assign "kind" "StatefulSet"
      ∷ copy "metadata"
      ∷ copy "spec"
      ∷ copy "status"
      ∷ [];
}

abbrev pub stateful_set_list : ResourceClass
stateful_set_list = record {
  name = ("apps.v1", "StatefulSetList");
  token = "kubernetes:apps/v1:StatefulSetList";
  args = ("apps.v1", "StatefulSetList");
  outputs =
      ("apiVersion", "string")
      ∷ ("items", "outputApi.apps.v1.StatefulSet[]")
      ∷ ("kind", "string")
      ∷ ("metadata", "outputApi.meta.v1.ListMeta")
      ∷ [];
  inputs =
      assign "apiVersion" "apps/v1"
      ∷ copy "items"
      ∷ assign "kind" "StatefulSetList"
      ∷ copy "metadata"
      ∷ [];
}
