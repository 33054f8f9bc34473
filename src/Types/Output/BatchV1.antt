-- ===== src/Types/Output/BatchV1.antt =====
-- The interfaces of the namespace `batch.v1` of pack/nodejs/types/output.ts.
use pulumi_kubernetes.Common.{List, [], ◌∷◌}
use pulumi_kubernetes.Types.Shape.{Interface, interface, readonly, text, number, boolean, list, ref}

abbrev pub job : Interface
job = interface "Job" (
    readonly "apiVersion" text
    ∷ readonly "kind" text
    ∷ readonly "metadata" (ref "meta.v1" "ObjectMeta")
    ∷ readonly "spec" (ref "batch.v1" "JobSpec")
    ∷ readonly "status" (ref "batch.v1" "JobStatus")
    ∷ [])

abbrev pub job_condition : Interface
job_condition = interface "JobCondition" (
    readonly "lastProbeTime" text
    ∷ readonly "lastTransitionTime" text
    ∷ readonly "message" text
    ∷ readonly "reason" text
    ∷ readonly "status" text
    ∷ readonly "type" text
    ∷ [])

abbrev pub job_list : Interface
job_list = interface "JobList" (
    readonly "apiVersion" text
    ∷ readonly "items" (list (ref "batch.v1" "Job"))
    ∷ readonly "kind" text
    ∷ readonly "metadata" (ref "meta.v1" "ListMeta")
    ∷ [])

abbrev pub job_spec : Interface
job_spec = interface "JobSpec" (
    readonly "activeDeadlineSeconds" number
    ∷ readonly "backoffLimit" number
    ∷ readonly "completions" number
    ∷ readonly "manualSelector" boolean
    ∷ readonly "parallelism" number
    ∷ readonly "selector" (ref "meta.v1" "LabelSelector")
    ∷ readonly "template" (ref "core.v1" "PodTemplateSpec")
    ∷ [])

abbrev pub job_status : Interface
job_status = interface "JobStatus" (
    readonly "active" number
    ∷ readonly "completionTime" text
    ∷ readonly "conditions" (list (ref "batch.v1" "JobCondition"))
    ∷ readonly "failed" number
    ∷ readonly "startTime" text
    ∷ readonly "succeeded" number
    ∷ [])

abbrev pub interfaces : List Interface
interfaces = job ∷ job_condition ∷ job_list ∷ job_spec ∷ job_status ∷ []
