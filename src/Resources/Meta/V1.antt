-- ===== src/Resources/Meta/V1.antt =====
-- The classes of the namespace `meta.v1` of pack/nodejs/provider.ts.
use pulumi_kubernetes.Common.{[], ◌∷◌}
use pulumi_kubernetes.Resources.Class.{ResourceClass, assign, copy}

abbrev pub api_group : ResourceClass
api_group = record {
  name = ("meta.v1", "APIGroup");
  token = "kubernetes:core/v1:APIGroup";
  args = ("meta.v1", "APIGroup");
  outputs =
      ("apiVersion", "string")
      ∷ ("kind", "string")
      ∷ ("name", "string")
      ∷ ("preferredVersion", "outputApi.meta.v1.GroupVersionForDiscovery")
      ∷ ("serverAddressByClientCIDRs", "outputApi.meta.v1.ServerAddressByClientCIDR[]")
      ∷ ("versions", "outputApi.meta.v1.GroupVersionForDiscovery[]")
      ∷ [];
  inputs =
      assign "apiVersion" "v1"
      ∷ assign "kind" "APIGroup"
      ∷ copy "name"
      ∷ copy "preferredVersion"
      ∷ copy "serverAddressByClientCIDRs"
      ∷ copy "versions"
      ∷ [];
}

abbrev pub api_group_list : ResourceClass
api_group_list = record {
  name = ("meta.v1", "APIGroupList");
  token = "kubernetes:core/v1:APIGroupList";
  args = ("meta.v1", "APIGroupList");
  outputs =
      ("apiVersion", "string")
      ∷ ("groups", "outputApi.meta.v1.APIGroup[]")
      ∷ ("kind", "string")
      ∷ [];
  inputs = assign "apiVersion" "v1" ∷ copy "groups" ∷ assign "kind" "APIGroupList" ∷ [];
}

abbrev pub api_resource_list : ResourceClass
api_resource_list = record {
  name = ("meta.v1", "APIResourceList");
  token = "kubernetes:core/v1:APIResourceList";
  args = ("meta.v1", "APIResourceList");
  outputs =
      ("apiVersion", "string")
      ∷ ("groupVersion", "string")
      ∷ ("kind", "string")
      ∷ ("resources", "outputApi.meta.v1.APIResource[]")
      ∷ [];
  inputs =
      assign "apiVersion" "v1"
      ∷ copy "groupVersion"
      ∷ assign "kind" "APIResourceList"
      ∷ copy "resources"
      ∷ [];
}

abbrev pub api_versions : ResourceClass
api_versions = record {
  name = ("meta.v1", "APIVersions");
  token = "kubernetes:core/v1:APIVersions";
  args = ("meta.v1", "APIVersions");
  outputs =
      ("apiVersion", "string")
      ∷ ("kind", "string")
      ∷ ("serverAddressByClientCIDRs", "outputApi.meta.v1.ServerAddressByClientCIDR[]")
      ∷ ("versions", "string[]")
      ∷ [];
  inputs =
      assign "apiVersion" "v1"
      ∷ assign "kind" "APIVersions"
      ∷ copy "serverAddressByClientCIDRs"
      ∷ copy "versions"
      ∷ [];
}

abbrev pub delete_options : ResourceClass
delete_options = record {
  name = ("meta.v1", "DeleteOptions");
  token = "kubernetes:core/v1:DeleteOptions";
  args = ("meta.v1", "DeleteOptions");
  outputs =
      ("apiVersion", "string")
      ∷ ("gracePeriodSeconds", "number")
      ∷ ("kind", "string")
      ∷ ("orphanDependents", "boolean")
      ∷ ("preconditions", "outputApi.meta.v1.Preconditions")
      ∷ ("propagationPolicy", "string")
      ∷ [];
  inputs =
      assign "apiVersion" "v1"
      ∷ copy "gracePeriodSeconds"
      ∷ assign "kind" "DeleteOptions"
      ∷ copy "orphanDependents"
      ∷ copy "preconditions"
      ∷ copy "propagationPolicy"
      ∷ [];
}

abbrev pub owner_reference : ResourceClass
owner_reference = record {
  name = ("meta.v1", "OwnerReference");
  token = "kubernetes:meta/v1:OwnerReference";
  args = ("meta.v1", "OwnerReference");
  outputs =
      ("apiVersion", "string")
      ∷ ("blockOwnerDeletion", "boolean")
      ∷ ("controller", "boolean")
      ∷ ("kind", "string")
      ∷ ("name", "string")
      ∷ ("uid", "string")
      ∷ [];
  inputs =
      assign "apiVersion" "meta/v1"
      ∷ copy "blockOwnerDeletion"
      ∷ copy "controller"
      ∷ assign "kind" "OwnerReference"
      ∷ copy "name"
      ∷ copy "uid"
      ∷ [];
}

abbrev pub status : ResourceClass
status = record {
  name = ("meta.v1", "Status");
  token = "kubernetes:core/v1:Status";
  args = ("meta.v1", "Status");
  outputs =
      ("apiVersion", "string")
      ∷ ("code", "number")
      ∷ ("details", "outputApi.meta.v1.StatusDetails")
      ∷ ("kind", "string")
      ∷ ("message", "string")
      ∷ ("metadata", "outputApi.meta.v1.ListMeta")
      ∷ ("reason", "string")
      ∷ ("status", "string")
      ∷ [];
  inputs =
      assign "apiVersion" "v1"
      ∷ copy "code"
      ∷ copy "details"
      ∷ assign "kind" "Status"
      ∷ copy "message"
      ∷ copy "metadata"
      ∷ copy "reason"
      ∷ copy "status"
      ∷ [];
}
