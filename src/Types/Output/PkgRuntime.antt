-- ===== src/Types/Output/PkgRuntime.antt =====
-- The interfaces of the namespace `pkg.runtime` of pack/nodejs/types/output.ts.
use pulumi_kubernetes.Common.{List, [], ◌∷◌}
use pulumi_kubernetes.Types.Shape.{Interface, interface, readonly, text}

abbrev pub raw_extension : Interface
raw_extension = interface "RawExtension" (readonly "Raw" text ∷ [])

abbrev pub interfaces : List Interface
interfaces = raw_extension ∷ []
