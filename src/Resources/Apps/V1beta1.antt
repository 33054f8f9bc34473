-- ===== src/Resources/Apps/V1beta1.antt =====
-- The classes of the namespace `apps.v1beta1` of pack/nodejs/provider.ts.
use pulumi_kubernetes.Common.{[], ◌∷◌}
use pulumi_kubernetes.Resources.Class.{ResourceClass, assign, copy}

abbrev pub controller_revision : ResourceClass
controller_revision = record {
  name = ("apps.v1beta1", "ControllerRevision");
  token = "kubernetes:apps/v1beta1:ControllerRevision";
  args = ("apps.v1beta1", "ControllerRevision");
  outputs =
      ("apiVersion", "string")
      ∷ ("data", "outputApi.pkg.runtime.RawExtension")
      ∷ ("kind", "string")
      ∷ ("metadata", "outputApi.meta.v1.ObjectMeta")
      ∷ ("revision", "number")
      ∷ [];
  inputs =
      assign "apiVersion" "apps/v1beta1"
      ∷ copy "data"
      ∷ assign "kind" "ControllerRevision"
      ∷ copy "metadata"
      ∷ copy "revision"
      ∷ [];
}

abbrev pub controller_revision_list : ResourceClass
controller_revision_list = record {
  name = ("apps.v1beta1", "ControllerRevisionList");
  token = "kubernetes:apps/v1beta1:ControllerRevisionList";
  args = ("apps.v1beta1", "ControllerRevisionList");
  outputs =
      ("apiVersion", "string")
      ∷ ("items", "outputApi.apps.v1beta1.ControllerRevision[]")
      ∷ ("kind", "string")
      ∷ ("metadata", "outputApi.meta.v1.ListMeta")
      ∷ [];
  inputs =
      assign "apiVersion" "apps/v1beta1"
      ∷ copy "items"
      ∷ assign "kind" "ControllerRevisionList"
      ∷ copy "metadata"
      ∷ [];
}

abbrev pub deployment : ResourceClass
deployment = record {
  name = ("apps.v1beta1", "Deployment");
  token = "kubernetes:apps/v1beta1:Deployment";
  args = ("apps.v1beta1", "Deployment");
  outputs =
      ("apiVersion", "string")
      ∷ ("kind", "string")
      ∷ ("metadata", "outputApi.meta.v1.ObjectMeta")
      ∷ ("spec", "outputApi.apps.v1beta1.DeploymentSpec")
      ∷ ("status", "outputApi.apps.v1beta1.DeploymentStatus")
      ∷ [];
  inputs =
      assign "apiVersion" "apps/v1beta1"
      ∷ assign "kind" "Deployment"
      ∷ copy "metadata"
      ∷ copy "spec"
      ∷ copy "status"
      ∷ [];
}

abbrev pub deployment_list : ResourceClass
deployment_list = record {
  name = ("apps.v1beta1", "DeploymentList");
  token = "kubernetes:apps/v1beta1:DeploymentList";
  args = ("apps.v1beta1", "DeploymentList");
  outputs =
      ("apiVersion", "string")
      ∷ ("items", "outputApi.apps.v1beta1.Deployment[]")
      ∷ ("kind", "string")
      ∷ ("metadata", "outputApi.meta.v1.ListMeta")
      ∷ [];
  inputs =
      assign "apiVersion" "apps/v1beta1"
      ∷ copy "items"
      ∷ assign "kind" "DeploymentList"
      ∷ copy "metadata"
      ∷ [];
}

abbrev pub deployment_rollback : ResourceClass
deployment_rollback = record {
  name = ("apps.v1beta1", "DeploymentRollback");
  token = "kubernetes:apps/v1beta1:DeploymentRollback";
  args = ("apps.v1beta1", "DeploymentRollback");
  outputs =
      ("apiVersion", "string")
      ∷ ("kind", "string")
      ∷ ("name", "string")
      ∷ ("rollbackTo", "outputApi.apps.v1beta1.RollbackConfig")
      ∷ ("updatedAnnotations", "{[key: string]: pulumi.Output<string>}")
      ∷ [];
  inputs =
      assign "apiVersion" "apps/v1beta1"
      ∷ assign "kind" "DeploymentRollback"
      ∷ copy "name"
      ∷ copy "rollbackTo"
      ∷ copy "updatedAnnotations"
      ∷ [];
}

abbrev pub scale : ResourceClass
scale = record {
  name = ("apps.v1beta1", "Scale");
  token = "kubernetes:apps/v1beta1:Scale";
  args = ("apps.v1beta1", "Scale");
  outputs =
      ("apiVersion", "string")
      ∷ ("kind", "string")
      ∷ ("metadata", "outputApi.meta.v1.ObjectMeta")
      ∷ ("spec", "outputApi.apps.v1beta1.ScaleSpec")
      ∷ ("status", "outputApi.apps.v1beta1.ScaleStatus")
      ∷ [];
  inputs =
      assign "apiVersion" "apps/v1beta1"
      ∷ assign "kind" "Scale"
      ∷ copy "metadata"
      ∷ copy "spec"
      ∷ copy "status"
      ∷ [];
}

abbrev pub stateful_set : ResourceClass
stateful_set = record {
  name = ("apps.v1beta1", "StatefulSet");
  token = "kubernetes:apps/v1beta1:StatefulSet";
  args = ("apps.v1beta1", "StatefulSet");
  outputs =
      ("apiVersion", "string")
      ∷ ("kind", "string")
      ∷ ("metadata", "outputApi.meta.v1.ObjectMeta")
      ∷ ("spec", "outputApi.apps.v1beta1.StatefulSetSpec")
      ∷ ("status", "outputApi.apps.v1beta1.StatefulSetStatus")
      ∷ [];
  inputs =
      assign "apiVersion" "apps/v1beta1"
      ∷ assign "kind" "StatefulSet"
      ∷ copy "metadata"
      ∷ copy "spec"
      ∷ copy "status"
      ∷ [];
}

abbrev pub stateful_set_list : ResourceClass
stateful_set_list = record {
  name = ("apps.v1beta1", "StatefulSetList");
  token = "kubernetes:apps/v1beta1:StatefulSetList";
  args = ("apps.v1beta1", "StatefulSetList");
  outputs =
      ("apiVersion", "string")
      ∷ ("items", "outputApi.apps.v1beta1.StatefulSet[]")
      ∷ ("kind", "string")
      ∷ ("metadata", "outputApi.meta.v1.ListMeta")
      ∷ [];
  inputs =
      assign "apiVersion" "apps/v1beta1"
      ∷ copy "items"
      ∷ assign "kind" "StatefulSetList"
      ∷ copy "metadata"
      ∷ [];
}
