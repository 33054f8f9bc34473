-- ===== src/Resources/Core/V1/AToE.antt =====
-- The classes of `core.v1` in pack/nodejs/provider.ts from Binding to EventList.
use pulumi_kubernetes.Common.{[], ◌∷◌}
use pulumi_kubernetes.Resources.Class.{ResourceClass, assign, copy}

abbrev pub binding : ResourceClass
binding = record {
  name = ("core.v1", "Binding");
  token = "kubernetes:core/v1:Binding";
  args = ("core.v1", "Binding");
  outputs =
      ("apiVersion", "string")
      ∷ ("kind", "string")
      ∷ ("metadata", "outputApi.meta.v1.ObjectMeta")
      ∷ ("target", "outputApi.core.v1.ObjectReference")
      ∷ [];
  inputs =
      assign "apiVersion" "v1" ∷ assign "kind" "Binding" ∷ copy "metadata" ∷ copy "target" ∷ [];
}

abbrev pub component_status : ResourceClass
component_status = record {
  name = ("core.v1", "ComponentStatus");
  token = "kubernetes:core/v1:ComponentStatus";
  args = ("core.v1", "ComponentStatus");
  outputs =
      ("apiVersion", "string")
      ∷ ("conditions", "outputApi.core.v1.ComponentCondition[]")
      ∷ ("kind", "string")
      ∷ ("metadata", "outputApi.meta.v1.ObjectMeta")
      ∷ [];
  inputs =
      assign "apiVersion" "v1"
      ∷ copy "conditions"
      ∷ assign "kind" "ComponentStatus"
      ∷ copy "metadata"
      ∷ [];
}

abbrev pub component_status_list : ResourceClass
component_status_list = record {
  name = ("core.v1", "ComponentStatusList");
  token = "kubernetes:core/v1:ComponentStatusList";
  args = ("core.v1", "ComponentStatusList");
  outputs =
      ("apiVersion", "string")
      ∷ ("items", "outputApi.core.v1.ComponentStatus[]")
      ∷ ("kind", "string")
      ∷ ("metadata", "outputApi.meta.v1.ListMeta")
      ∷ [];
  inputs =
      assign "apiVersion" "v1"
      ∷ copy "items"
      ∷ assign "kind" "ComponentStatusList"
      ∷ copy "metadata"
      ∷ [];
}

abbrev pub config_map : ResourceClass
config_map = record {
  name = ("core.v1", "ConfigMap");
  token = "kubernetes:core/v1:ConfigMap";
  args = ("core.v1", "ConfigMap");
  outputs =
      ("apiVersion", "string")
      ∷ ("data", "{[key: string]: pulumi.Output<string>}")
      ∷ ("kind", "string")
      ∷ ("metadata", "outputApi.meta.v1.ObjectMeta")
      ∷ [];
  inputs =
      assign "apiVersion" "v1" ∷ copy "data" ∷ assign "kind" "ConfigMap" ∷ copy "metadata" ∷ [];
}

abbrev pub config_map_list : ResourceClass
config_map_list = record {
  name = ("core.v1", "ConfigMapList");
  token = "kubernetes:core/v1:ConfigMapList";
  args = ("core.v1", "ConfigMapList");
  outputs =
      ("apiVersion", "string")
      ∷ ("items", "outputApi.core.v1.ConfigMap[]")
      ∷ ("kind", "string")
      ∷ ("metadata", "outputApi.meta.v1.ListMeta")
      ∷ [];
  inputs =
      assign "apiVersion" "v1"
      ∷ copy "items"
      ∷ assign "kind" "ConfigMapList"
      ∷ copy "metadata"
      ∷ [];
}

abbrev pub endpoints : ResourceClass
endpoints = record {
  name = ("core.v1", "Endpoints");
  token = "kubernetes:core/v1:Endpoints";
  args = ("core.v1", "Endpoints");
  outputs =
      ("apiVersion", "string")
      ∷ ("kind", "string")
      ∷ ("metadata", "outputApi.meta.v1.ObjectMeta")
      ∷ ("subsets", "outputApi.core.v1.EndpointSubset[]")
      ∷ [];
  inputs =
      assign "apiVersion" "v1" ∷ assign "kind" "Endpoints" ∷ copy "metadata" ∷ copy "subsets" ∷ [];
}

abbrev pub endpoints_list : ResourceClass
endpoints_list = record {
  name = ("core.v1", "EndpointsList");
  token = "kubernetes:core/v1:EndpointsList";
  args = ("core.v1", "EndpointsList");
  outputs =
      ("apiVersion", "string")
      ∷ ("items", "outputApi.core.v1.Endpoints[]")
      ∷ ("kind", "string")
      ∷ ("metadata", "outputApi.meta.v1.ListMeta")
      ∷ [];
  inputs =
      assign "apiVersion" "v1"
      ∷ copy "items"
      ∷ assign "kind" "EndpointsList"
      ∷ copy "metadata"
      ∷ [];
}

abbrev pub event : ResourceClass
event = record {
  name = ("core.v1", "Event");
  token = "kubernetes:core/v1:Event";
  args = ("core.v1", "Event");
  outputs =
      ("action", "string")
      ∷ ("apiVersion", "string")
      ∷ ("count", "number")
      ∷ ("eventTime", "string")
      ∷ ("firstTimestamp", "string")
      ∷ ("involvedObject", "outputApi.core.v1.ObjectReference")
      ∷ ("kind", "string")
      ∷ ("lastTimestamp", "string")
      ∷ ("message", "string")
      ∷ ("metadata", "outputApi.meta.v1.ObjectMeta")
      ∷ ("reason", "string")
      ∷ ("related", "outputApi.core.v1.ObjectReference")
      ∷ ("reportingComponent", "string")
      ∷ ("reportingInstance", "string")
      ∷ ("series", "outputApi.core.v1.EventSeries")
      ∷ ("source", "outputApi.core.v1.EventSource")
      ∷ ("type", "string")
      ∷ [];
  inputs =
      copy "action"
      ∷ assign "apiVersion" "v1"
      ∷ copy "count"
      ∷ copy "eventTime"
      ∷ copy "firstTimestamp"
      ∷ copy "involvedObject"
      ∷ assign "kind" "Event"
      ∷ copy "lastTimestamp"
      ∷ copy "message"
      ∷ copy "metadata"
      ∷ copy "reason"
      ∷ copy "related"
      ∷ copy "reportingComponent"
      ∷ copy "reportingInstance"
      ∷ copy "series"
      ∷ copy "source"
      ∷ copy "type"
      ∷ [];
}

abbrev pub event_list : ResourceClass
event_list = record {
  name = ("core.v1", "EventList");
  token = "kubernetes:core/v1:EventList";
  args = ("core.v1", "EventList");
  outputs =
      ("apiVersion", "string")
      ∷ ("items", "outputApi.core.v1.Event[]")
      ∷ ("kind", "string")
      ∷ ("metadata", "outputApi.meta.v1.ListMeta")
      ∷ [];
  inputs =
      assign "apiVersion" "v1" ∷ copy "items" ∷ assign "kind" "EventList" ∷ copy "metadata" ∷ [];
}
