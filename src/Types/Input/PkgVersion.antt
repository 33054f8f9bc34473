-- ===== src/Types/Input/PkgVersion.antt =====
-- The interfaces of the namespace `pkg.version` of pack/nodejs/types/input.ts.
use pulumi_kubernetes.Common.{List, [], ◌∷◌}
use pulumi_kubernetes.Types.Shape.{Interface, interface, required, text}

abbrev pub info : Interface
info = interface "Info" (
    required "buildDate" text
    ∷ required "compiler" text
    ∷ required "gitCommit" text
    ∷ required "gitTreeState" text
    ∷ required "gitVersion" text
    ∷ required "goVersion" text
    ∷ required "major" text
    ∷ required "minor" text
    ∷ required "platform" text
    ∷ [])

abbrev pub interfaces : List Interface
interfaces = info ∷ []
