-- ===== src/Options.antt =====
-- The option bags of the package: the interfaces of pack/nodejs/provider.ts and
-- pack/nodejs/helm.ts, and the part of Pulumi's resource options that the package sets.
use pulumi_kubernetes.Common.{ℕ, String, Bool, Option, List}
use pulumi_kubernetes.Js.Value.{Value, Fields}
use pulumi_kubernetes.Js.Outcome.{Outcome}

-- A callback `(o: any) => void`: what it makes of the object that it changes in place, or what it
-- throws.
abbrev pub Transformation : Type 0
Transformation = Value → Outcome Value

-- `string[] | string`
pub data OneOrMany : Type 0 where
  one : String → OneOrMany
  many : List String → OneOrMany

pub record ConfigGroupOpts : Type 0 where
  pub files : Option OneOrMany
  pub yaml : Option OneOrMany
  pub transformations : Option (List Transformation)

pub record ConfigOpts : Type 0 where
  pub objs : List Value
  pub transformations : Option (List Transformation)

pub record FetchOpts : Type 0 where
  pub version : Option String
  pub ca_file : Option String
  pub cert_file : Option String
  pub key_file : Option String
  pub destination : Option String
  pub keyring : Option String
  pub password : Option String
  pub repo : Option String
  pub untardir : Option String
  pub username : Option String
  pub home : Option String
  pub devel : Option Bool
  pub prov : Option Bool
  pub untar : Option Bool
  pub verify : Option Bool

pub record ChartOpts : Type 0 where
  pub repo : String
  pub chart : String
  pub version : String
  pub namespace : Option String
  pub values : Value
  pub transformations : Option (List Transformation)
  pub fetch_opts : Option FetchOpts

-- Pulumi's resource options: the parent, and all else that a caller passes. A component is named by
-- the position of its registration among the program's effects.
pub record ResourceOptions : Type 0 where
  pub parent : Option ℕ
  pub others : Fields

-- What a component is given as its `config`.
pub data Config : Type 0 where
  group : ConfigGroupOpts → Config
  file : ConfigOpts → Config
  chart : ChartOpts → Config
