-- ===== src/Resources/Authentication/V1beta1.antt =====
-- The classes of the namespace `authentication.v1beta1` of pack/nodejs/provider.ts.
use pulumi_kubernetes.Common.{[], ◌∷◌}
use pulumi_kubernetes.Resources.Class.{ResourceClass, assign, copy}

abbrev pub token_review : ResourceClass
token_review = record {
  name = ("authentication.v1beta1", "TokenReview");
  token = "kubernetes:authentication.k8s.io/v1beta1:TokenReview";
  args = ("authentication.v1beta1", "TokenReview");
  outputs =
      ("apiVersion", "string")
      ∷ ("kind", "string")
      ∷ ("metadata", "outputApi.meta.v1.ObjectMeta")
      ∷ ("spec", "outputApi.authentication.v1beta1.TokenReviewSpec")
      ∷ ("status", "outputApi.authentication.v1beta1.TokenReviewStatus")
      ∷ [];
  inputs =
      assign "apiVersion" "authentication.k8s.io/v1beta1"
      ∷ assign "kind" "TokenReview"
      ∷ copy "metadata"
      ∷ copy "spec"
      ∷ copy "status"
      ∷ [];
}
