-- ===== src/Resources/Core/V1/FToO.antt =====
-- The classes of `core.v1` in pack/nodejs/provider.ts from LimitRange to ObjectReference.
use pulumi_kubernetes.Common.{[], ◌∷◌}
use pulumi_kubernetes.Resources.Class.{ResourceClass, assign, copy}

abbrev pub limit_range : ResourceClass
limit_range = record {
  name = ("core.v1", "LimitRange");
  token = "kubernetes:core/v1:LimitRange";
  args = ("core.v1", "LimitRange");
  outputs =
      ("apiVersion", "string")
      ∷ ("kind", "string")
      ∷ ("metadata", "outputApi.meta.v1.ObjectMeta")
      ∷ ("spec", "outputApi.core.v1.LimitRangeSpec")
      ∷ [];
  inputs =
      assign "apiVersion" "v1" ∷ assign "kind" "LimitRange" ∷ copy "metadata" ∷ copy "spec" ∷ [];
}

abbrev pub limit_range_list : ResourceClass
limit_range_list = record {
  name = ("core.v1", "LimitRangeList");
  token = "kubernetes:core/v1:LimitRangeList";
  args = ("core.v1", "LimitRangeList");
  outputs =
      ("apiVersion", "string")
      ∷ ("items", "outputApi.core.v1.LimitRange[]")
      ∷ ("kind", "string")
      ∷ ("metadata", "outputApi.meta.v1.ListMeta")
      ∷ [];
  inputs =
      assign "apiVersion" "v1"
      ∷ copy "items"
      ∷ assign "kind" "LimitRangeList"
      ∷ copy "metadata"
      ∷ [];
}

abbrev pub namespace : ResourceClass
namespace = record {
  name = ("core.v1", "Namespace");
  token = "kubernetes:core/v1:Namespace";
  args = ("core.v1", "Namespace");
  outputs =
      ("apiVersion", "string")
      ∷ ("kind", "string")
      ∷ ("metadata", "outputApi.meta.v1.ObjectMeta")
      ∷ ("spec", "outputApi.core.v1.NamespaceSpec")
      ∷ ("status", "outputApi.core.v1.NamespaceStatus")
      ∷ [];
  inputs =
      assign "apiVersion" "v1"
      ∷ assign "kind" "Namespace"
      ∷ copy "metadata"
      ∷ copy "spec"
      ∷ copy "status"
      ∷ [];
}

abbrev pub namespace_list : ResourceClass
namespace_list = record {
  name = ("core.v1", "NamespaceList");
  token = "kubernetes:core/v1:NamespaceList";
  args = ("core.v1", "NamespaceList");
  outputs =
      ("apiVersion", "string")
      ∷ ("items", "outputApi.core.v1.Namespace[]")
      ∷ ("kind", "string")
      ∷ ("metadata", "outputApi.meta.v1.ListMeta")
      ∷ [];
  inputs =
      assign "apiVersion" "v1"
      ∷ copy "items"
      ∷ assign "kind" "NamespaceList"
      ∷ copy "metadata"
      ∷ [];
}

abbrev pub node : ResourceClass
node = record {
  name = ("core.v1", "Node");
  token = "kubernetes:core/v1:Node";
  args = ("core.v1", "Node");
  outputs =
      ("apiVersion", "string")
      ∷ ("kind", "string")
      ∷ ("metadata", "outputApi.meta.v1.ObjectMeta")
      ∷ ("spec", "outputApi.core.v1.NodeSpec")
      ∷ ("status", "outputApi.core.v1.NodeStatus")
      ∷ [];
  inputs =
      assign "apiVersion" "v1"
      ∷ assign "kind" "Node"
      ∷ copy "metadata"
      ∷ copy "spec"
      ∷ copy "status"
      ∷ [];
}

abbrev pub node_config_source : ResourceClass
node_config_source = record {
  name = ("core.v1", "NodeConfigSource");
  token = "kubernetes:core/v1:NodeConfigSource";
  args = ("core.v1", "NodeConfigSource");
  outputs =
      ("apiVersion", "string")
      ∷ ("configMapRef", "outputApi.core.v1.ObjectReference")
      ∷ ("kind", "string")
      ∷ [];
  inputs = assign "apiVersion" "v1" ∷ copy "configMapRef" ∷ assign "kind" "NodeConfigSource" ∷ [];
}

abbrev pub node_list : ResourceClass
node_list = record {
  name = ("core.v1", "NodeList");
  token = "kubernetes:core/v1:NodeList";
  args = ("core.v1", "NodeList");
  outputs =
      ("apiVersion", "string")
      ∷ ("items", "outputApi.core.v1.Node[]")
      ∷ ("kind", "string")
      ∷ ("metadata", "outputApi.meta.v1.ListMeta")
      ∷ [];
  inputs =
      assign "apiVersion" "v1" ∷ copy "items" ∷ assign "kind" "NodeList" ∷ copy "metadata" ∷ [];
}

abbrev pub object_reference : ResourceClass
object_reference = record {
  name = ("core.v1", "ObjectReference");
  token = "kubernetes:core/v1:ObjectReference";
  args = ("core.v1", "ObjectReference");
  outputs =
      ("apiVersion", "string")
      ∷ ("fieldPath", "string")
      ∷ ("kind", "string")
      ∷ ("name", "string")
      ∷ ("namespace", "string")
      ∷ ("resourceVersion", "string")
      ∷ ("uid", "string")
      ∷ [];
  inputs =
      assign "apiVersion" "core/v1"
      ∷ copy "fieldPath"
      ∷ assign "kind" "ObjectReference"
      ∷ copy "name"
      ∷ copy "namespace"
      ∷ copy "resourceVersion"
      ∷ copy "uid"
      ∷ [];
}
