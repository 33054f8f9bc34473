-- ===== src/Types/Output/AuthorizationV1.antt =====
-- The interfaces of the namespace `authorization.v1` of pack/nodejs/types/output.ts.
use pulumi_kubernetes.Common.{List, [], ◌∷◌}
use pulumi_kubernetes.Types.Shape.{
  Interface, interface, readonly, text, boolean, any_object, list, ref,
}

abbrev pub local_subject_access_review : Interface
local_subject_access_review = interface "LocalSubjectAccessReview" (
    readonly "apiVersion" text
    ∷ readonly "kind" text
    ∷ readonly "metadata" (ref "meta.v1" "ObjectMeta")
    ∷ readonly "spec" (ref "authorization.v1" "SubjectAccessReviewSpec")
    ∷ readonly "status" (ref "authorization.v1" "SubjectAccessReviewStatus")
    ∷ [])

abbrev pub non_resource_attributes : Interface
non_resource_attributes =
    interface "NonResourceAttributes" (readonly "path" text ∷ readonly "verb" text ∷ [])

abbrev pub non_resource_rule : Interface
non_resource_rule =
    interface "NonResourceRule"
      (readonly "nonResourceURLs" (list text) ∷ readonly "verbs" (list text) ∷ [])

abbrev pub resource_attributes : Interface
resource_attributes = interface "ResourceAttributes" (
    readonly "group" text
    ∷ readonly "name" text
    ∷ readonly "namespace" text
    ∷ readonly "resource" text
    ∷ readonly "subresource" text
    ∷ readonly "verb" text
    ∷ readonly "version" text
    ∷ [])

abbrev pub resource_rule : Interface
resource_rule = interface "ResourceRule" (
    readonly "apiGroups" (list text)
    ∷ readonly "resourceNames" (list text)
    ∷ readonly "resources" (list text)
    ∷ readonly "verbs" (list text)
    ∷ [])

abbrev pub self_subject_access_review : Interface
self_subject_access_review = interface "SelfSubjectAccessReview" (
    readonly "apiVersion" text
    ∷ readonly "kind" text
    ∷ readonly "metadata" (ref "meta.v1" "ObjectMeta")
    ∷ readonly "spec" (ref "authorization.v1" "SelfSubjectAccessReviewSpec")
    ∷ readonly "status" (ref "authorization.v1" "SubjectAccessReviewStatus")
    ∷ [])

abbrev pub self_subject_access_review_spec : Interface
self_subject_access_review_spec = interface "SelfSubjectAccessReviewSpec" (
    readonly "nonResourceAttributes" (ref "authorization.v1" "NonResourceAttributes")
    ∷ readonly "resourceAttributes" (ref "authorization.v1" "ResourceAttributes")
    ∷ [])

abbrev pub self_subject_rules_review : Interface
self_subject_rules_review = interface "SelfSubjectRulesReview" (
    readonly "apiVersion" text
    ∷ readonly "kind" text
    ∷ readonly "metadata" (ref "meta.v1" "ObjectMeta")
    ∷ readonly "spec" (ref "authorization.v1" "SelfSubjectRulesReviewSpec")
    ∷ readonly "status" (ref "authorization.v1" "SubjectRulesReviewStatus")
    ∷ [])

abbrev pub self_subject_rules_review_spec : Interface
self_subject_rules_review_spec =
    interface "SelfSubjectRulesReviewSpec" (readonly "namespace" text ∷ [])

abbrev pub subject_access_review : Interface
subject_access_review = interface "SubjectAccessReview" (
    readonly "apiVersion" text
    ∷ readonly "kind" text
    ∷ readonly "metadata" (ref "meta.v1" "ObjectMeta")
    ∷ readonly "spec" (ref "authorization.v1" "SubjectAccessReviewSpec")
    ∷ readonly "status" (ref "authorization.v1" "SubjectAccessReviewStatus")
    ∷ [])

abbrev pub subject_access_review_spec : Interface
subject_access_review_spec = interface "SubjectAccessReviewSpec" (
    readonly "extra" any_object
    ∷ readonly "groups" (list text)
    ∷ readonly "nonResourceAttributes" (ref "authorization.v1" "NonResourceAttributes")
    ∷ readonly "resourceAttributes" (ref "authorization.v1" "ResourceAttributes")
    ∷ readonly "uid" text
    ∷ readonly "user" text
    ∷ [])

abbrev pub subject_access_review_status : Interface
subject_access_review_status = interface "SubjectAccessReviewStatus" (
    readonly "allowed" boolean
    ∷ readonly "denied" boolean
    ∷ readonly "evaluationError" text
    ∷ readonly "reason" text
    ∷ [])

abbrev pub subject_rules_review_status : Interface
subject_rules_review_status = interface "SubjectRulesReviewStatus" (
    readonly "evaluationError" text
    ∷ readonly "incomplete" boolean
    ∷ readonly "nonResourceRules" (list (ref "authorization.v1" "NonResourceRule"))
    ∷ readonly "resourceRules" (list (ref "authorization.v1" "ResourceRule"))
    ∷ [])

abbrev pub interfaces : List Interface
interfaces =
    local_subject_access_review ∷ non_resource_attributes ∷ non_resource_rule ∷ resource_attributes
    ∷ resource_rule ∷ self_subject_access_review ∷ self_subject_access_review_spec
    ∷ self_subject_rules_review ∷ self_subject_rules_review_spec ∷ subject_access_review
    ∷ subject_access_review_spec ∷ subject_access_review_status ∷ subject_rules_review_status ∷ []
