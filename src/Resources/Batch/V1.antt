-- ===== src/Resources/Batch/V1.antt =====
-- The classes of the namespace `batch.v1` of pack/nodejs/provider.ts.
use pulumi_kubernetes.Common.{[], ◌∷◌}
use pulumi_kubernetes.Resources.Class.{ResourceClass, assign, copy}

abbrev pub job : ResourceClass
job = record {
  name = ("batch.v1", "Job");
  token = "kubernetes:batch/v1:Job";
  args = ("batch.v1", "Job");
  outputs =
      ("apiVersion", "string")
      ∷ ("kind", "string")
      ∷ ("metadata", "outputApi.meta.v1.ObjectMeta")
      ∷ ("spec", "outputApi.batch.v1.JobSpec")
      ∷ ("status", "outputApi.batch.v1.JobStatus")
      ∷ [];
  inputs =
      assign "apiVersion" "batch/v1"
      ∷ assign "kind" "Job"
      ∷ copy "metadata"
      ∷ copy "spec"
      ∷ copy "status"
      ∷ [];
}

abbrev pub job_list : ResourceClass
job_list = record {
  name = ("batch.v1", "JobList");
  token = "kubernetes:batch/v1:JobList";
  args = ("batch.v1", "JobList");
  outputs =
      ("apiVersion", "string")
      ∷ ("items", "outputApi.batch.v1.Job[]")
      ∷ ("kind", "string")
      ∷ ("metadata", "outputApi.meta.v1.ListMeta")
      ∷ [];
  inputs =
      assign "apiVersion" "batch/v1"
      ∷ copy "items"
      ∷ assign "kind" "JobList"
      ∷ copy "metadata"
      ∷ [];
}
