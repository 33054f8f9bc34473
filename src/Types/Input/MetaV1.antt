-- ===== src/Types/Input/MetaV1.antt =====
-- The interfaces of the namespace `meta.v1` of pack/nodejs/types/input.ts.
use pulumi_kubernetes.Common.{List, [], ◌∷◌}
use pulumi_kubernetes.Types.Shape.{
  Interface, guarded, interface, required, optional, text, number, boolean, list, dict, ref, input,
}

abbrev pub api_group : Interface
api_group = guarded "APIGroup" "v1" "APIGroup" (
    required "name" text
    ∷ required "serverAddressByClientCIDRs" (list (ref "meta.v1" "ServerAddressByClientCIDR"))
    ∷ required "versions" (list (ref "meta.v1" "GroupVersionForDiscovery"))
    ∷ optional "apiVersion" text
    ∷ optional "kind" text
    ∷ optional "preferredVersion" (ref "meta.v1" "GroupVersionForDiscovery")
    ∷ [])

abbrev pub api_group_list : Interface
api_group_list = guarded "APIGroupList" "v1" "APIGroupList" (
    required "groups" (list (ref "meta.v1" "APIGroup"))
    ∷ optional "apiVersion" text
    ∷ optional "kind" text
    ∷ [])

abbrev pub api_resource : Interface
api_resource = interface "APIResource" (
    required "kind" text
    ∷ required "name" text
    ∷ required "namespaced" boolean
    ∷ required "singularName" text
    ∷ required "verbs" (list text)
    ∷ optional "categories" (list text)
    ∷ optional "group" text
    ∷ optional "shortNames" (list text)
    ∷ optional "version" text
    ∷ [])

abbrev pub api_resource_list : Interface
api_resource_list = guarded "APIResourceList" "v1" "APIResourceList" (
    required "groupVersion" text
    ∷ required "resources" (list (ref "meta.v1" "APIResource"))
    ∷ optional "apiVersion" text
    ∷ optional "kind" text
    ∷ [])

abbrev pub api_versions : Interface
api_versions = guarded "APIVersions" "v1" "APIVersions" (
    required "serverAddressByClientCIDRs" (list (ref "meta.v1" "ServerAddressByClientCIDR"))
    ∷ required "versions" (list text)
    ∷ optional "apiVersion" text
    ∷ optional "kind" text
    ∷ [])

abbrev pub delete_options : Interface
delete_options = guarded "DeleteOptions" "v1" "DeleteOptions" (
    optional "apiVersion" text
    ∷ optional "gracePeriodSeconds" number
    ∷ optional "kind" text
    ∷ optional "orphanDependents" boolean
    ∷ optional "preconditions" (ref "meta.v1" "Preconditions")
    ∷ optional "propagationPolicy" text
    ∷ [])

abbrev pub group_version_for_discovery : Interface
group_version_for_discovery =
    interface "GroupVersionForDiscovery"
      (required "groupVersion" text ∷ required "version" text ∷ [])

abbrev pub initializer : Interface
initializer = interface "Initializer" (required "name" text ∷ [])

abbrev pub initializers : Interface
initializers = interface "Initializers" (
    required "pending" (list (ref "meta.v1" "Initializer"))
    ∷ optional "result" (ref "meta.v1" "Status")
    ∷ [])

abbrev pub label_selector : Interface
label_selector = interface "LabelSelector" (
    optional "matchExpressions" (list (ref "meta.v1" "LabelSelectorRequirement"))
    ∷ optional "matchLabels" (dict (input text))
    ∷ [])

abbrev pub label_selector_requirement : Interface
label_selector_requirement =
    interface "LabelSelectorRequirement"
      (required "key" text ∷ required "operator" text ∷ optional "values" (list text) ∷ [])

abbrev pub list_meta : Interface
list_meta =
    interface "ListMeta"
      (optional "continue" text ∷ optional "resourceVersion" text ∷ optional "selfLink" text ∷ [])

abbrev pub object_meta : Interface
object_meta = interface "ObjectMeta" (
    optional "annotations" (dict (input text))
    ∷ optional "clusterName" text
    ∷ optional "creationTimestamp" text
    ∷ optional "deletionGracePeriodSeconds" number
    ∷ optional "deletionTimestamp" text
    ∷ optional "finalizers" (list text)
    ∷ optional "generateName" text
    ∷ optional "generation" number
    ∷ optional "initializers" (ref "meta.v1" "Initializers")
    ∷ optional "labels" (dict (input text))
    ∷ optional "name" text
    ∷ optional "namespace" text
    ∷ optional "ownerReferences" (list (ref "meta.v1" "OwnerReference"))
    ∷ optional "resourceVersion" text
    ∷ optional "selfLink" text
    ∷ optional "uid" text
    ∷ [])

abbrev pub owner_reference : Interface
owner_reference = guarded "OwnerReference" "meta/v1" "OwnerReference" (
    required "apiVersion" text
    ∷ required "kind" text
    ∷ required "name" text
    ∷ required "uid" text
    ∷ optional "blockOwnerDeletion" boolean
    ∷ optional "controller" boolean
    ∷ [])

abbrev pub preconditions : Interface
preconditions = interface "Preconditions" (optional "uid" text ∷ [])

abbrev pub server_address_by_client_cidr : Interface
server_address_by_client_cidr =
    interface "ServerAddressByClientCIDR"
      (required "clientCIDR" text ∷ required "serverAddress" text ∷ [])

abbrev pub status : Interface
status = guarded "Status" "v1" "Status" (
    optional "apiVersion" text
    ∷ optional "code" number
    ∷ optional "details" (ref "meta.v1" "StatusDetails")
    ∷ optional "kind" text
    ∷ optional "message" text
    ∷ optional "metadata" (ref "meta.v1" "ListMeta")
    ∷ optional "reason" text
    ∷ optional "status" text
    ∷ [])

abbrev pub status_cause : Interface
status_cause =
    interface "StatusCause"
      (optional "field" text ∷ optional "message" text ∷ optional "reason" text ∷ [])

abbrev pub status_details : Interface
status_details = interface "StatusDetails" (
    optional "causes" (list (ref "meta.v1" "StatusCause"))
    ∷ optional "group" text
    ∷ optional "kind" text
    ∷ optional "name" text
    ∷ optional "retryAfterSeconds" number
    ∷ optional "uid" text
    ∷ [])

abbrev pub watch_event : Interface
watch_event =
    interface "WatchEvent"
      (required "object" (ref "pkg.runtime" "RawExtension") ∷ required "type" text ∷ [])

abbrev pub interfaces : List Interface
interfaces =
    api_group ∷ api_group_list ∷ api_resource ∷ api_resource_list ∷ api_versions ∷ delete_options
    ∷ group_version_for_discovery ∷ initializer ∷ initializers ∷ label_selector
    ∷ label_selector_requirement ∷ list_meta ∷ object_meta ∷ owner_reference ∷ preconditions
    ∷ server_address_by_client_cidr ∷ status ∷ status_cause ∷ status_details ∷ watch_event ∷ []
