-- ===== src/Types/Output/AuthenticationV1beta1.antt =====
-- The interfaces of the namespace `authentication.v1beta1` of pack/nodejs/types/output.ts.
use pulumi_kubernetes.Common.{List, [], ◌∷◌}
use pulumi_kubernetes.Types.Shape.{
  Interface, interface, readonly, text, boolean, any_object, list, ref,
}

abbrev pub token_review : Interface
token_review = interface "TokenReview" (
    readonly "apiVersion" text
    ∷ readonly "kind" text
    ∷ readonly "metadata" (ref "meta.v1" "ObjectMeta")
    ∷ readonly "spec" (ref "authentication.v1beta1" "TokenReviewSpec")
    ∷ readonly "status" (ref "authentication.v1beta1" "TokenReviewStatus")
    ∷ [])

abbrev pub token_review_spec : Interface
token_review_spec = interface "TokenReviewSpec" (readonly "token" text ∷ [])

abbrev pub token_review_status : Interface
token_review_status = interface "TokenReviewStatus" (
    readonly "authenticated" boolean
    ∷ readonly "error" text
    ∷ readonly "user" (ref "authentication.v1beta1" "UserInfo")
    ∷ [])

abbrev pub user_info : Interface
user_info = interface "UserInfo" (
    readonly "extra" any_object
    ∷ readonly "groups" (list text)
    ∷ readonly "uid" text
    ∷ readonly "username" text
    ∷ [])

abbrev pub interfaces : List Interface
interfaces = token_review ∷ token_review_spec ∷ token_review_status ∷ user_info ∷ []
