-- ===== src/Types/Input/AuthenticationV1.antt =====
-- The interfaces of the namespace `authentication.v1` of pack/nodejs/types/input.ts.
use pulumi_kubernetes.Common.{List, [], ◌∷◌}
use pulumi_kubernetes.Types.Shape.{
  Interface, guarded, interface, required, optional, text, boolean, any_object, list, ref,
}

abbrev pub token_review : Interface
token_review = guarded "TokenReview" "authentication.k8s.io/v1" "TokenReview" (
    required "spec" (ref "authentication.v1" "TokenReviewSpec")
    ∷ optional "apiVersion" text
    ∷ optional "kind" text
    ∷ optional "metadata" (ref "meta.v1" "ObjectMeta")
    ∷ optional "status" (ref "authentication.v1" "TokenReviewStatus")
    ∷ [])

abbrev pub token_review_spec : Interface
token_review_spec = interface "TokenReviewSpec" (optional "token" text ∷ [])

abbrev pub token_review_status : Interface
token_review_status = interface "TokenReviewStatus" (
    optional "authenticated" boolean
    ∷ optional "error" text
    ∷ optional "user" (ref "authentication.v1" "UserInfo")
    ∷ [])

abbrev pub user_info : Interface
user_info = interface "UserInfo" (
    optional "extra" any_object
    ∷ optional "groups" (list text)
    ∷ optional "uid" text
    ∷ optional "username" text
    ∷ [])

abbrev pub interfaces : List Interface
interfaces = token_review ∷ token_review_spec ∷ token_review_status ∷ user_info ∷ []
