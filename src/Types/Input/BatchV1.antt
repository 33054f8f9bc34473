-- ===== src/Types/Input/BatchV1.antt =====
-- The interfaces of the namespace `batch.v1` of pack/nodejs/types/input.ts.
use pulumi_kubernetes.Common.{List, [], ◌∷◌}
use pulumi_kubernetes.Types.Shape.{
  Interface, guarded, interface, required, optional, text, number, boolean, list, ref,
}

abbrev pub job : Interface
job = guarded "Job" "batch/v1" "Job" (
    optional "apiVersion" text
    ∷ optional "kind" text
    ∷ optional "metadata" (ref "meta.v1" "ObjectMeta")
    ∷ optional "spec" (ref "batch.v1" "JobSpec")
    ∷ optional "status" (ref "batch.v1" "JobStatus")
    ∷ [])

abbrev pub job_condition : Interface
job_condition = interface "JobCondition" (
    required "status" text
    ∷ required "type" text
    ∷ optional "lastProbeTime" text
    ∷ optional "lastTransitionTime" text
    ∷ optional "message" text
    ∷ optional "reason" text
    ∷ [])

abbrev pub job_list : Interface
job_list = guarded "JobList" "batch/v1" "JobList" (
    required "items" (list (ref "batch.v1" "Job"))
    ∷ optional "apiVersion" text
    ∷ optional "kind" text
    ∷ optional "metadata" (ref "meta.v1" "ListMeta")
    ∷ [])

abbrev pub job_spec : Interface
job_spec = interface "JobSpec" (
    required "template" (ref "core.v1" "PodTemplateSpec")
    ∷ optional "activeDeadlineSeconds" number
    ∷ optional "backoffLimit" number
    ∷ optional "completions" number
    ∷ optional "manualSelector" boolean
    ∷ optional "parallelism" number
    ∷ optional "selector" (ref "meta.v1" "LabelSelector")
    ∷ [])

abbrev pub job_status : Interface
job_status = interface "JobStatus" (
    optional "active" number
    ∷ optional "completionTime" text
    ∷ optional "conditions" (list (ref "batch.v1" "JobCondition"))
    ∷ optional "failed" number
    ∷ optional "startTime" text
    ∷ optional "succeeded" number
    ∷ [])

abbrev pub interfaces : List Interface
interfaces = job ∷ job_condition ∷ job_list ∷ job_spec ∷ job_status ∷ []
