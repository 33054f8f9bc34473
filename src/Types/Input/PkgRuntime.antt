-- ===== src/Types/Input/PkgRuntime.antt =====
-- The interfaces of the namespace `pkg.runtime` of pack/nodejs/types/input.ts.
use pulumi_kubernetes.Common.{List, [], ◌∷◌}
use pulumi_kubernetes.Types.Shape.{Interface, interface, required, text}

abbrev pub raw_extension : Interface
raw_extension = interface "RawExtension" (required "Raw" text ∷ [])

abbrev pub interfaces : List Interface
interfaces = raw_extension ∷ []
