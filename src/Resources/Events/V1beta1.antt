-- ===== src/Resources/Events/V1beta1.antt =====
-- The classes of the namespace `events.v1beta1` of pack/nodejs/provider.ts.
use pulumi_kubernetes.Common.{[], ◌∷◌}
use pulumi_kubernetes.Resources.Class.{ResourceClass, assign, copy}

abbrev pub event : ResourceClass
event = record {
  name = ("events.v1beta1", "Event");
  token = "kubernetes:events.k8s.io/v1beta1:Event";
  args = ("events.v1beta1", "Event");
  outputs =
      ("action", "string")
      ∷ ("apiVersion", "string")
      ∷ ("deprecatedCount", "number")
      ∷ ("deprecatedFirstTimestamp", "string")
      ∷ ("deprecatedLastTimestamp", "string")
      ∷ ("deprecatedSource", "outputApi.core.v1.EventSource")
      ∷ ("eventTime", "string")
      ∷ ("kind", "string")
      ∷ ("metadata", "outputApi.meta.v1.ObjectMeta")
      ∷ ("note", "string")
      ∷ ("reason", "string")
      ∷ ("regarding", "outputApi.core.v1.ObjectReference")
      ∷ ("related", "outputApi.core.v1.ObjectReference")
      ∷ ("reportingController", "string")
      ∷ ("reportingInstance", "string")
      ∷ ("series", "outputApi.events.v1beta1.EventSeries")
      ∷ ("type", "string")
      ∷ [];
  inputs =
      copy "action"
      ∷ assign "apiVersion" "events.k8s.io/v1beta1"
      ∷ copy "deprecatedCount"
      ∷ copy "deprecatedFirstTimestamp"
      ∷ copy "deprecatedLastTimestamp"
      ∷ copy "deprecatedSource"
      ∷ copy "eventTime"
      ∷ assign "kind" "Event"
      ∷ copy "metadata"
      ∷ copy "note"
      ∷ copy "reason"
      ∷ copy "regarding"
      ∷ copy "related"
      ∷ copy "reportingController"
      ∷ copy "reportingInstance"
      ∷ copy "series"
      ∷ copy "type"
      ∷ [];
}

abbrev pub event_list : ResourceClass
event_list = record {
  name = ("events.v1beta1", "EventList");
  token = "kubernetes:events.k8s.io/v1beta1:EventList";
  args = ("events.v1beta1", "EventList");
  outputs =
      ("apiVersion", "string")
      ∷ ("items", "outputApi.events.v1beta1.Event[]")
      ∷ ("kind", "string")
      ∷ ("metadata", "outputApi.meta.v1.ListMeta")
      ∷ [];
  inputs =
      assign "apiVersion" "events.k8s.io/v1beta1"
      ∷ copy "items"
      ∷ assign "kind" "EventList"
      ∷ copy "metadata"
      ∷ [];
}
