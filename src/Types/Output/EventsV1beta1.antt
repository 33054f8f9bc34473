-- ===== src/Types/Output/EventsV1beta1.antt =====
-- The interfaces of the namespace `events.v1beta1` of pack/nodejs/types/output.ts.
use pulumi_kubernetes.Common.{List, [], ◌∷◌}
use pulumi_kubernetes.Types.Shape.{Interface, interface, readonly, text, number, list, ref}

abbrev pub event : Interface
event = interface "Event" (
    readonly "action" text
    ∷ readonly "apiVersion" text
    ∷ readonly "deprecatedCount" number
    ∷ readonly "deprecatedFirstTimestamp" text
    ∷ readonly "deprecatedLastTimestamp" text
    ∷ readonly "deprecatedSource" (ref "core.v1" "EventSource")
    ∷ readonly "eventTime" text
    ∷ readonly "kind" text
    ∷ readonly "metadata" (ref "meta.v1" "ObjectMeta")
    ∷ readonly "note" text
    ∷ readonly "reason" text
    ∷ readonly "regarding" (ref "core.v1" "ObjectReference")
    ∷ readonly "related" (ref "core.v1" "ObjectReference")
    ∷ readonly "reportingController" text
    ∷ readonly "reportingInstance" text
    ∷ readonly "series" (ref "events.v1beta1" "EventSeries")
    ∷ readonly "type" text
    ∷ [])

abbrev pub event_list : Interface
event_list = interface "EventList" (
    readonly "apiVersion" text
    ∷ readonly "items" (list (ref "events.v1beta1" "Event"))
    ∷ readonly "kind" text
    ∷ readonly "metadata" (ref "meta.v1" "ListMeta")
    ∷ [])

abbrev pub event_series : Interface
event_series =
    interface "EventSeries"
      (readonly "count" number ∷ readonly "lastObservedTime" text ∷ readonly "state" text ∷ [])

abbrev pub interfaces : List Interface
interfaces = event ∷ event_list ∷ event_series ∷ []
