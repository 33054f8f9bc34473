-- ===== src/Types/Output/PkgVersion.antt =====
-- The interfaces of the namespace `pkg.version` of pack/nodejs/types/output.ts.
use pulumi_kubernetes.Common.{List, [], ◌∷◌}
use pulumi_kubernetes.Types.Shape.{Interface, interface, readonly, text}

abbrev pub info : Interface
info = interface "Info" (
    readonly "buildDate" text
    ∷ readonly "compiler" text
    ∷ readonly "gitCommit" text
    ∷ readonly "gitTreeState" text
    ∷ readonly "gitVersion" text
    ∷ readonly "goVersion" text
    ∷ readonly "major" text
    ∷ readonly "minor" text
    ∷ readonly "platform" text
    ∷ [])

abbrev pub interfaces : List Interface
interfaces = info ∷ []
