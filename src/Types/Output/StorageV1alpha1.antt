-- ===== src/Types/Output/StorageV1alpha1.antt =====
-- The interfaces of the namespace `storage.v1alpha1` of pack/nodejs/types/output.ts.
use pulumi_kubernetes.Common.{List, [], ◌∷◌}
use pulumi_kubernetes.Types.Shape.{Interface, interface, readonly, text, boolean, list, dict, ref}

abbrev pub volume_attachment : Interface
volume_attachment = interface "VolumeAttachment" (
    readonly "apiVersion" text
    ∷ readonly "kind" text
    ∷ readonly "metadata" (ref "meta.v1" "ObjectMeta")
    ∷ readonly "spec" (ref "storage.v1alpha1" "VolumeAttachmentSpec")
    ∷ readonly "status" (ref "storage.v1alpha1" "VolumeAttachmentStatus")
    ∷ [])

abbrev pub volume_attachment_list : Interface
volume_attachment_list = interface "VolumeAttachmentList" (
    readonly "apiVersion" text
    ∷ readonly "items" (list (ref "storage.v1alpha1" "VolumeAttachment"))
    ∷ readonly "kind" text
    ∷ readonly "metadata" (ref "meta.v1" "ListMeta")
    ∷ [])

abbrev pub volume_attachment_source : Interface
volume_attachment_source =
    interface "VolumeAttachmentSource" (readonly "persistentVolumeName" text ∷ [])

abbrev pub volume_attachment_spec : Interface
volume_attachment_spec = interface "VolumeAttachmentSpec" (
    readonly "attacher" text
    ∷ readonly "nodeName" text
    ∷ readonly "source" (ref "storage.v1alpha1" "VolumeAttachmentSource")
    ∷ [])

abbrev pub volume_attachment_status : Interface
volume_attachment_status = interface "VolumeAttachmentStatus" (
    readonly "attachError" (ref "storage.v1alpha1" "VolumeError")
    ∷ readonly "attached" boolean
    ∷ readonly "attachmentMetadata" (dict text)
    ∷ readonly "detachError" (ref "storage.v1alpha1" "VolumeError")
    ∷ [])

abbrev pub volume_error : Interface
volume_error = interface "VolumeError" (readonly "message" text ∷ readonly "time" text ∷ [])

abbrev pub interfaces : List Interface
interfaces =
    volume_attachment ∷ volume_attachment_list ∷ volume_attachment_source ∷ volume_attachment_spec
    ∷ volume_attachment_status ∷ volume_error ∷ []
