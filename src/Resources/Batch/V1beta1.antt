-- ===== src/Resources/Batch/V1beta1.antt =====
-- The classes of the namespace `batch.v1beta1` of pack/nodejs/provider.ts.
use pulumi_kubernetes.Common.{[], ◌∷◌}
use pulumi_kubernetes.Resources.Class.{ResourceClass, assign, copy}

abbrev pub cron_job : ResourceClass
cron_job = record {
  name = ("batch.v1beta1", "CronJob");
  token = "kubernetes:batch/v1beta1:CronJob";
  args = ("batch.v1beta1", "CronJob");
  outputs =
      ("apiVersion", "string")
      ∷ ("kind", "string")
      ∷ ("metadata", "outputApi.meta.v1.ObjectMeta")
      ∷ ("spec", "outputApi.batch.v1beta1.CronJobSpec")
      ∷ ("status", "outputApi.batch.v1beta1.CronJobStatus")
      ∷ [];
  inputs =
      assign "apiVersion" "batch/v1beta1"
      ∷ assign "kind" "CronJob"
      ∷ copy "metadata"
      ∷ copy "spec"
      ∷ copy "status"
      ∷ [];
}

abbrev pub cron_job_list : ResourceClass
cron_job_list = record {
  name = ("batch.v1beta1", "CronJobList");
  token = "kubernetes:batch/v1beta1:CronJobList";
  args = ("batch.v1beta1", "CronJobList");
  outputs =
      ("apiVersion", "string")
      ∷ ("items", "outputApi.batch.v1beta1.CronJob[]")
      ∷ ("kind", "string")
      ∷ ("metadata", "outputApi.meta.v1.ListMeta")
      ∷ [];
  inputs =
      assign "apiVersion" "batch/v1beta1"
      ∷ copy "items"
      ∷ assign "kind" "CronJobList"
      ∷ copy "metadata"
      ∷ [];
}
