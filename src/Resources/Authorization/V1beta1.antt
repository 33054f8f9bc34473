-- ===== src/Resources/Authorization/V1beta1.antt =====
-- The classes of the namespace `authorization.v1beta1` of pack/nodejs/provider.ts.
use pulumi_kubernetes.Common.{[], ◌∷◌}
use pulumi_kubernetes.Resources.Class.{ResourceClass, assign, copy}

abbrev pub local_subject_access_review : ResourceClass
local_subject_access_review = record {
  name = ("authorization.v1beta1", "LocalSubjectAccessReview");
  token = "kubernetes:authorization.k8s.io/v1beta1:LocalSubjectAccessReview";
  args = ("authorization.v1beta1", "LocalSubjectAccessReview");
  outputs =
      ("apiVersion", "string")
      ∷ ("kind", "string")
      ∷ ("metadata", "outputApi.meta.v1.ObjectMeta")
      ∷ ("spec", "outputApi.authorization.v1beta1.SubjectAccessReviewSpec")
      ∷ ("status", "outputApi.authorization.v1beta1.SubjectAccessReviewStatus")
      ∷ [];
  inputs =
      assign "apiVersion" "authorization.k8s.io/v1beta1"
      ∷ assign "kind" "LocalSubjectAccessReview"
      ∷ copy "metadata"
      ∷ copy "spec"
      ∷ copy "status"
      ∷ [];
}

abbrev pub self_subject_access_review : ResourceClass
self_subject_access_review = record {
  name = ("authorization.v1beta1", "SelfSubjectAccessReview");
  token = "kubernetes:authorization.k8s.io/v1beta1:SelfSubjectAccessReview";
  args = ("authorization.v1beta1", "SelfSubjectAccessReview");
  outputs =
      ("apiVersion", "string")
      ∷ ("kind", "string")
      ∷ ("metadata", "outputApi.meta.v1.ObjectMeta")
      ∷ ("spec", "outputApi.authorization.v1beta1.SelfSubjectAccessReviewSpec")
      ∷ ("status", "outputApi.authorization.v1beta1.SubjectAccessReviewStatus")
      ∷ [];
  inputs =
      assign "apiVersion" "authorization.k8s.io/v1beta1"
      ∷ assign "kind" "SelfSubjectAccessReview"
      ∷ copy "metadata"
      ∷ copy "spec"
      ∷ copy "status"
      ∷ [];
}

abbrev pub self_subject_rules_review : ResourceClass
self_subject_rules_review = record {
  name = ("authorization.v1beta1", "SelfSubjectRulesReview");
  token = "kubernetes:authorization.k8s.io/v1beta1:SelfSubjectRulesReview";
  args = ("authorization.v1beta1", "SelfSubjectRulesReview");
  outputs =
      ("apiVersion", "string")
      ∷ ("kind", "string")
      ∷ ("metadata", "outputApi.meta.v1.ObjectMeta")
      ∷ ("spec", "outputApi.authorization.v1beta1.SelfSubjectRulesReviewSpec")
      ∷ ("status", "outputApi.authorization.v1beta1.SubjectRulesReviewStatus")
      ∷ [];
  inputs =
      assign "apiVersion" "authorization.k8s.io/v1beta1"
      ∷ assign "kind" "SelfSubjectRulesReview"
      ∷ copy "metadata"
      ∷ copy "spec"
      ∷ copy "status"
      ∷ [];
}

abbrev pub subject_access_review : ResourceClass
subject_access_review = record {
  name = ("authorization.v1beta1", "SubjectAccessReview");
  token = "kubernetes:authorization.k8s.io/v1beta1:SubjectAccessReview";
  args = ("authorization.v1beta1", "SubjectAccessReview");
  outputs =
      ("apiVersion", "string")
      ∷ ("kind", "string")
      ∷ ("metadata", "outputApi.meta.v1.ObjectMeta")
      ∷ ("spec", "outputApi.authorization.v1beta1.SubjectAccessReviewSpec")
      ∷ ("status", "outputApi.authorization.v1beta1.SubjectAccessReviewStatus")
      ∷ [];
  inputs =
      assign "apiVersion" "authorization.k8s.io/v1beta1"
      ∷ assign "kind" "SubjectAccessReview"
      ∷ copy "metadata"
      ∷ copy "spec"
      ∷ copy "status"
      ∷ [];
}
