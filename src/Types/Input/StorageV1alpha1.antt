-- ===== src/Types/Input/StorageV1alpha1.antt =====
-- The interfaces of the namespace `storage.v1alpha1` of pack/nodejs/types/input.ts.
use pulumi_kubernetes.Common.{List, [], ◌∷◌}
use pulumi_kubernetes.Types.Shape.{
  Interface, guarded, interface, required, optional, text, boolean, list, dict, ref, input,
}

abbrev pub volume_attachment : Interface
volume_attachment = guarded "VolumeAttachment" "storage.k8s.io/v1alpha1" "VolumeAttachment" (
    required "spec" (ref "storage.v1alpha1" "VolumeAttachmentSpec")
    ∷ optional "apiVersion" text
    ∷ optional "kind" text
    ∷ optional "metadata" (ref "meta.v1" "ObjectMeta")
    ∷ optional "status" (ref "storage.v1alpha1" "VolumeAttachmentStatus")
    ∷ [])

abbrev pub volume_attachment_list : Interface
volume_attachment_list =
    guarded "VolumeAttachmentList" "storage.k8s.io/v1alpha1" "VolumeAttachmentList" (
      required "items" (list (ref "storage.v1alpha1" "VolumeAttachment"))
      ∷ optional "apiVersion" text
      ∷ optional "kind" text
      ∷ optional "metadata" (ref "meta.v1" "ListMeta")
      ∷ [])

abbrev pub volume_attachment_source : Interface
volume_attachment_source =
    interface "VolumeAttachmentSource" (optional "persistentVolumeName" text ∷ [])

abbrev pub volume_attachment_spec : Interface
volume_attachment_spec = interface "VolumeAttachmentSpec" (
    required "attacher" text
    ∷ required "nodeName" text
    ∷ required "source" (ref "storage.v1alpha1" "VolumeAttachmentSource")
    ∷ [])

abbrev pub volume_attachment_status : Interface
volume_attachment_status = interface "VolumeAttachmentStatus" (
    required "attached" boolean
    ∷ optional "attachError" (ref "storage.v1alpha1" "VolumeError")
    ∷ optional "attachmentMetadata" (dict (input text))
    ∷ optional "detachError" (ref "storage.v1alpha1" "VolumeError")
    ∷ [])

abbrev pub volume_error : Interface
volume_error = interface "VolumeError" (optional "message" text ∷ optional "time" text ∷ [])

abbrev pub interfaces : List Interface
interfaces =
    volume_attachment ∷ volume_attachment_list ∷ volume_attachment_source ∷ volume_attachment_spec
    ∷ volume_attachment_status ∷ volume_error ∷ []
