-- ===== src/Types/Output/BatchV2alpha1.antt =====
-- The interfaces of the namespace `batch.v2alpha1` of pack/nodejs/types/output.ts.
use pulumi_kubernetes.Common.{List, [], ◌∷◌}
use pulumi_kubernetes.Types.Shape.{Interface, interface, readonly, text, number, boolean, list, ref}

abbrev pub cron_job : Interface
cron_job = interface "CronJob" (
    readonly "apiVersion" text
    ∷ readonly "kind" text
    ∷ readonly "metadata" (ref "meta.v1" "ObjectMeta")
    ∷ readonly "spec" (ref "batch.v2alpha1" "CronJobSpec")
    ∷ readonly "status" (ref "batch.v2alpha1" "CronJobStatus")
    ∷ [])

abbrev pub cron_job_list : Interface
cron_job_list = interface "CronJobList" (
    readonly "apiVersion" text
    ∷ readonly "items" (list (ref "batch.v2alpha1" "CronJob"))
    ∷ readonly "kind" text
    ∷ readonly "metadata" (ref "meta.v1" "ListMeta")
    ∷ [])

abbrev pub cron_job_spec : Interface
cron_job_spec = interface "CronJobSpec" (
    readonly "concurrencyPolicy" text
    ∷ readonly "failedJobsHistoryLimit" number
    ∷ readonly "jobTemplate" (ref "batch.v2alpha1" "JobTemplateSpec")
    ∷ readonly "schedule" text
    ∷ readonly "startingDeadlineSeconds" number
    ∷ readonly "successfulJobsHistoryLimit" number
    ∷ readonly "suspend" boolean
    ∷ [])

abbrev pub cron_job_status : Interface
cron_job_status = interface "CronJobStatus" (
    readonly "active" (list (ref "core.v1" "ObjectReference"))
    ∷ readonly "lastScheduleTime" text
    ∷ [])

abbrev pub job_template_spec : Interface
job_template_spec = interface "JobTemplateSpec" (
    readonly "metadata" (ref "meta.v1" "ObjectMeta")
    ∷ readonly "spec" (ref "batch.v1" "JobSpec")
    ∷ [])

abbrev pub interfaces : List Interface
interfaces = cron_job ∷ cron_job_list ∷ cron_job_spec ∷ cron_job_status ∷ job_template_spec ∷ []
