-- ===== src/Types/Input/BatchV1beta1.antt =====
-- The interfaces of the namespace `batch.v1beta1` of pack/nodejs/types/input.ts.
use pulumi_kubernetes.Common.{List, [], ◌∷◌}
use pulumi_kubernetes.Types.Shape.{
  Interface, guarded, interface, required, optional, text, number, boolean, list, ref,
}

abbrev pub cron_job : Interface
cron_job = guarded "CronJob" "batch/v1beta1" "CronJob" (
    optional "apiVersion" text
    ∷ optional "kind" text
    ∷ optional "metadata" (ref "meta.v1" "ObjectMeta")
    ∷ optional "spec" (ref "batch.v1beta1" "CronJobSpec")
    ∷ optional "status" (ref "batch.v1beta1" "CronJobStatus")
    ∷ [])

abbrev pub cron_job_list : Interface
cron_job_list = guarded "CronJobList" "batch/v1beta1" "CronJobList" (
    required "items" (list (ref "batch.v1beta1" "CronJob"))
    ∷ optional "apiVersion" text
    ∷ optional "kind" text
    ∷ optional "metadata" (ref "meta.v1" "ListMeta")
    ∷ [])

abbrev pub cron_job_spec : Interface
cron_job_spec = interface "CronJobSpec" (
    required "jobTemplate" (ref "batch.v1beta1" "JobTemplateSpec")
    ∷ required "schedule" text
    ∷ optional "concurrencyPolicy" text
    ∷ optional "failedJobsHistoryLimit" number
    ∷ optional "startingDeadlineSeconds" number
    ∷ optional "successfulJobsHistoryLimit" number
    ∷ optional "suspend" boolean
    ∷ [])

abbrev pub cron_job_status : Interface
cron_job_status = interface "CronJobStatus" (
    optional "active" (list (ref "core.v1" "ObjectReference"))
    ∷ optional "lastScheduleTime" text
    ∷ [])

abbrev pub job_template_spec : Interface
job_template_spec = interface "JobTemplateSpec" (
    optional "metadata" (ref "meta.v1" "ObjectMeta")
    ∷ optional "spec" (ref "batch.v1" "JobSpec")
    ∷ [])

abbrev pub interfaces : List Interface
interfaces = cron_job ∷ cron_job_list ∷ cron_job_spec ∷ cron_job_status ∷ job_template_spec ∷ []
