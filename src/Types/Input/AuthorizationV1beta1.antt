-- ===== src/Types/Input/AuthorizationV1beta1.antt =====
-- The interfaces of the namespace `authorization.v1beta1` of pack/nodejs/types/input.ts.
use pulumi_kubernetes.Common.{List, [], ◌∷◌}
use pulumi_kubernetes.Types.Shape.{
  Interface, guarded, interface, required, optional, text, boolean, any_object, list, ref,
}

abbrev pub local_subject_access_review : Interface
local_subject_access_review =
    guarded "LocalSubjectAccessReview" "authorization.k8s.io/v1beta1" "LocalSubjectAccessReview" (
      required "spec" (ref "authorization.v1beta1" "SubjectAccessReviewSpec")
      ∷ optional "apiVersion" text
      ∷ optional "kind" text
      ∷ optional "metadata" (ref "meta.v1" "ObjectMeta")
      ∷ optional "status" (ref "authorization.v1beta1" "SubjectAccessReviewStatus")
      ∷ [])

abbrev pub non_resource_attributes : Interface
non_resource_attributes =
    interface "NonResourceAttributes" (optional "path" text ∷ optional "verb" text ∷ [])

abbrev pub non_resource_rule : Interface
non_resource_rule =
    interface "NonResourceRule"
      (required "verbs" (list text) ∷ optional "nonResourceURLs" (list text) ∷ [])

abbrev pub resource_attributes : Interface
resource_attributes = interface "ResourceAttributes" (
    optional "group" text
    ∷ optional "name" text
    ∷ optional "namespace" text
    ∷ optional "resource" text
    ∷ optional "subresource" text
    ∷ optional "verb" text
    ∷ optional "version" text
    ∷ [])

abbrev pub resource_rule : Interface
resource_rule = interface "ResourceRule" (
    required "verbs" (list text)
    ∷ optional "apiGroups" (list text)
    ∷ optional "resourceNames" (list text)
    ∷ optional "resources" (list text)
    ∷ [])

abbrev pub self_subject_access_review : Interface
self_subject_access_review =
    guarded "SelfSubjectAccessReview" "authorization.k8s.io/v1beta1" "SelfSubjectAccessReview" (
      required "spec" (ref "authorization.v1beta1" "SelfSubjectAccessReviewSpec")
      ∷ optional "apiVersion" text
      ∷ optional "kind" text
      ∷ optional "metadata" (ref "meta.v1" "ObjectMeta")
      ∷ optional "status" (ref "authorization.v1beta1" "SubjectAccessReviewStatus")
      ∷ [])

abbrev pub self_subject_access_review_spec : Interface
self_subject_access_review_spec = interface "SelfSubjectAccessReviewSpec" (
    optional "nonResourceAttributes" (ref "authorization.v1beta1" "NonResourceAttributes")
    ∷ optional "resourceAttributes" (ref "authorization.v1beta1" "ResourceAttributes")
    ∷ [])

abbrev pub self_subject_rules_review : Interface
self_subject_rules_review =
    guarded "SelfSubjectRulesReview" "authorization.k8s.io/v1beta1" "SelfSubjectRulesReview" (
      required "spec" (ref "authorization.v1beta1" "SelfSubjectRulesReviewSpec")
      ∷ optional "apiVersion" text
      ∷ optional "kind" text
      ∷ optional "metadata" (ref "meta.v1" "ObjectMeta")
      ∷ optional "status" (ref "authorization.v1beta1" "SubjectRulesReviewStatus")
      ∷ [])

abbrev pub self_subject_rules_review_spec : Interface
self_subject_rules_review_spec =
    interface "SelfSubjectRulesReviewSpec" (optional "namespace" text ∷ [])

abbrev pub subject_access_review : Interface
subject_access_review =
    guarded "SubjectAccessReview" "authorization.k8s.io/v1beta1" "SubjectAccessReview" (
      required "spec" (ref "authorization.v1beta1" "SubjectAccessReviewSpec")
      ∷ optional "apiVersion" text
      ∷ optional "kind" text
      ∷ optional "metadata" (ref "meta.v1" "ObjectMeta")
      ∷ optional "status" (ref "authorization.v1beta1" "SubjectAccessReviewStatus")
      ∷ [])

abbrev pub subject_access_review_spec : Interface
subject_access_review_spec = interface "SubjectAccessReviewSpec" (
    optional "extra" any_object
    ∷ optional "group" (list text)
    ∷ optional "nonResourceAttributes" (ref "authorization.v1beta1" "NonResourceAttributes")
    ∷ optional "resourceAttributes" (ref "authorization.v1beta1" "ResourceAttributes")
    ∷ optional "uid" text
    ∷ optional "user" text
    ∷ [])

abbrev pub subject_access_review_status : Interface
subject_access_review_status = interface "SubjectAccessReviewStatus" (
    required "allowed" boolean
    ∷ optional "denied" boolean
    ∷ optional "evaluationError" text
    ∷ optional "reason" text
    ∷ [])

abbrev pub subject_rules_review_status : Interface
subject_rules_review_status = interface "SubjectRulesReviewStatus" (
    required "incomplete" boolean
    ∷ required "nonResourceRules" (list (ref "authorization.v1beta1" "NonResourceRule"))
    ∷ required "resourceRules" (list (ref "authorization.v1beta1" "ResourceRule"))
    ∷ optional "evaluationError" text
    ∷ [])

abbrev pub interfaces : List Interface
interfaces =
    local_subject_access_review ∷ non_resource_attributes ∷ non_resource_rule ∷ resource_attributes
    ∷ resource_rule ∷ self_subject_access_review ∷ self_subject_access_review_spec
    ∷ self_subject_rules_review ∷ self_subject_rules_review_spec ∷ subject_access_review
    ∷ subject_access_review_spec ∷ subject_access_review_status ∷ subject_rules_review_status ∷ []
