-- ===== src/Types/Input/EventsV1beta1.antt =====
-- The interfaces of the namespace `events.v1beta1` of pack/nodejs/types/input.ts.
use pulumi_kubernetes.Common.{List, [], ◌∷◌}
use pulumi_kubernetes.Types.Shape.{
  Interface, guarded, interface, required, optional, text, number, list, ref,
}

abbrev pub event : Interface
event = guarded "Event" "events.k8s.io/v1beta1" "Event" (
    required "eventTime" text
    ∷ optional "action" text
    ∷ optional "apiVersion" text
    ∷ optional "deprecatedCount" number
    ∷ optional "deprecatedFirstTimestamp" text
    ∷ optional "deprecatedLastTimestamp" text
    ∷ optional "deprecatedSource" (ref "core.v1" "EventSource")
    ∷ optional "kind" text
    ∷ optional "metadata" (ref "meta.v1" "ObjectMeta")
    ∷ optional "note" text
    ∷ optional "reason" text
    ∷ optional "regarding" (ref "core.v1" "ObjectReference")
    ∷ optional "related" (ref "core.v1" "ObjectReference")
    ∷ optional "reportingController" text
    ∷ optional "reportingInstance" text
    ∷ optional "series" (ref "events.v1beta1" "EventSeries")
    ∷ optional "type" text
    ∷ [])

abbrev pub event_list : Interface
event_list = guarded "EventList" "events.k8s.io/v1beta1" "EventList" (
    required "items" (list (ref "events.v1beta1" "Event"))
    ∷ optional "apiVersion" text
    ∷ optional "kind" text
    ∷ optional "metadata" (ref "meta.v1" "ListMeta")
    ∷ [])

abbrev pub event_series : Interface
event_series =
    interface "EventSeries"
      (required "count" number ∷ required "lastObservedTime" text ∷ required "state" text ∷ [])

abbrev pub interfaces : List Interface
interfaces = event ∷ event_list ∷ event_series ∷ []
