-- ===== src/Types/Output/MetaV1.antt =====
-- The interfaces of the namespace `meta.v1` of pack/nodejs/types/output.ts.
use pulumi_kubernetes.Common.{List, [], ◌∷◌}
use pulumi_kubernetes.Types.Shape.{
  Interface, interface, readonly, text, number, boolean, list, dict, ref,
}

abbrev pub api_group : Interface
api_group = interface "APIGroup" (
    readonly "apiVersion" text
    ∷ readonly "kind" text
    ∷ readonly "name" text
    ∷ readonly "preferredVersion" (ref "meta.v1" "GroupVersionForDiscovery")
    ∷ readonly "serverAddressByClientCIDRs" (list (ref "meta.v1" "ServerAddressByClientCIDR"))
    ∷ readonly "versions" (list (ref "meta.v1" "GroupVersionForDiscovery"))
    ∷ [])

abbrev pub api_group_list : Interface
api_group_list = interface "APIGroupList" (
    readonly "apiVersion" text
    ∷ readonly "groups" (list (ref "meta.v1" "APIGroup"))
    ∷ readonly "kind" text
    ∷ [])

abbrev pub api_resource : Interface
api_resource = interface "APIResource" (
    readonly "categories" (list text)
    ∷ readonly "group" text
    ∷ readonly "kind" text
    ∷ readonly "name" text
    ∷ readonly "namespaced" boolean
    ∷ readonly "shortNames" (list text)
    ∷ readonly "singularName" text
    ∷ readonly "verbs" (list text)
    ∷ readonly "version" text
    ∷ [])

abbrev pub api_resource_list : Interface
api_resource_list = interface "APIResourceList" (
    readonly "apiVersion" text
    ∷ readonly "groupVersion" text
    ∷ readonly "kind" text
    ∷ readonly "resources" (list (ref "meta.v1" "APIResource"))
    ∷ [])

abbrev pub api_versions : Interface
api_versions = interface "APIVersions" (
    readonly "apiVersion" text
    ∷ readonly "kind" text
    ∷ readonly "serverAddressByClientCIDRs" (list (ref "meta.v1" "ServerAddressByClientCIDR"))
    ∷ readonly "versions" (list text)
    ∷ [])

abbrev pub delete_options : Interface
delete_options = interface "DeleteOptions" (
    readonly "apiVersion" text
    ∷ readonly "gracePeriodSeconds" number
    ∷ readonly "kind" text
    ∷ readonly "orphanDependents" boolean
    ∷ readonly "preconditions" (ref "meta.v1" "Preconditions")
    ∷ readonly "propagationPolicy" text
    ∷ [])

abbrev pub group_version_for_discovery : Interface
group_version_for_discovery =
    interface "GroupVersionForDiscovery"
      (readonly "groupVersion" text ∷ readonly "version" text ∷ [])

abbrev pub initializer : Interface
initializer = interface "Initializer" (readonly "name" text ∷ [])

abbrev pub initializers : Interface
initializers = interface "Initializers" (
    readonly "pending" (list (ref "meta.v1" "Initializer"))
    ∷ readonly "result" (ref "meta.v1" "Status")
    ∷ [])

abbrev pub label_selector : Interface
label_selector = interface "LabelSelector" (
    readonly "matchExpressions" (list (ref "meta.v1" "LabelSelectorRequirement"))
    ∷ readonly "matchLabels" (dict text)
    ∷ [])

abbrev pub label_selector_requirement : Interface
label_selector_requirement =
    interface "LabelSelectorRequirement"
      (readonly "key" text ∷ readonly "operator" text ∷ readonly "values" (list text) ∷ [])

abbrev pub list_meta : Interface
list_meta =
    interface "ListMeta"
      (readonly "continue" text ∷ readonly "resourceVersion" text ∷ readonly "selfLink" text ∷ [])

abbrev pub object_meta : Interface
object_meta = interface "ObjectMeta" (
    readonly "annotations" (dict text)
    ∷ readonly "clusterName" text
    ∷ readonly "creationTimestamp" text
    ∷ readonly "deletionGracePeriodSeconds" number
    ∷ readonly "deletionTimestamp" text
    ∷ readonly "finalizers" (list text)
    ∷ readonly "generateName" text
    ∷ readonly "generation" number
    ∷ readonly "initializers" (ref "meta.v1" "Initializers")
    ∷ readonly "labels" (dict text)
    ∷ readonly "name" text
    ∷ readonly "namespace" text
    ∷ readonly "ownerReferences" (list (ref "meta.v1" "OwnerReference"))
    ∷ readonly "resourceVersion" text
    ∷ readonly "selfLink" text
    ∷ readonly "uid" text
    ∷ [])

abbrev pub owner_reference : Interface
owner_reference = interface "OwnerReference" (
    readonly "apiVersion" text
    ∷ readonly "blockOwnerDeletion" boolean
    ∷ readonly "controller" boolean
    ∷ readonly "kind" text
    ∷ readonly "name" text
    ∷ readonly "uid" text
    ∷ [])

abbrev pub preconditions : Interface
preconditions = interface "Preconditions" (readonly "uid" text ∷ [])

abbrev pub server_address_by_client_cidr : Interface
server_address_by_client_cidr =
    interface "ServerAddressByClientCIDR"
      (readonly "clientCIDR" text ∷ readonly "serverAddress" text ∷ [])

abbrev pub status : Interface
status = interface "Status" (
    readonly "apiVersion" text
    ∷ readonly "code" number
    ∷ readonly "details" (ref "meta.v1" "StatusDetails")
    ∷ readonly "kind" text
    ∷ readonly "message" text
    ∷ readonly "metadata" (ref "meta.v1" "ListMeta")
    ∷ readonly "reason" text
    ∷ readonly "status" text
    ∷ [])

abbrev pub status_cause : Interface
status_cause =
    interface "StatusCause"
      (readonly "field" text ∷ readonly "message" text ∷ readonly "reason" text ∷ [])

abbrev pub status_details : Interface
status_details = interface "StatusDetails" (
    readonly "causes" (list (ref "meta.v1" "StatusCause"))
    ∷ readonly "group" text
    ∷ readonly "kind" text
    ∷ readonly "name" text
    ∷ readonly "retryAfterSeconds" number
    ∷ readonly "uid" text
    ∷ [])

abbrev pub watch_event : Interface
watch_event =
    interface "WatchEvent"
      (readonly "object" (ref "pkg.runtime" "RawExtension") ∷ readonly "type" text ∷ [])

abbrev pub interfaces : List Interface
interfaces =
    api_group ∷ api_group_list ∷ api_resource ∷ api_resource_list ∷ api_versions ∷ delete_options
    ∷ group_version_for_discovery ∷ initializer ∷ initializers ∷ label_selector
    ∷ label_selector_requirement ∷ list_meta ∷ object_meta ∷ owner_reference ∷ preconditions
    ∷ server_address_by_client_cidr ∷ status ∷ status_cause ∷ status_details ∷ watch_event ∷ []
