-- ===== src/Lib.antt =====
-- The Node package of pulumi-kubernetes, pack/nodejs.
--
-- The package lets a Pulumi program declare Kubernetes resources. It holds one class for each kind
-- of resource, collections that read YAML documents and make an instance of the fitting class for
-- each object in them, charts that run Helm and read what it prints, and the provider that all
-- resources may be registered with. Its state is what it registers: the constructors of the package
-- end in those of Pulumi, and a collection keeps the resources that it made, by key.
--
-- What the package calls and does not contain is the parameter `External` of Runtime.antt: Pulumi's
-- constructors, `glob`, `js-yaml`, `shell-quote`, `tmp`, the file system and the shell. Every call
-- of them that has an effect is an event at the end of a log, and its answer, a result or an
-- exception, is a function of the whole log, so that a world may answer each call differently.
--
--   Common      names of the libraries, texts, lists, and Common/Dict: objects as association lists
--               with assignment and spread
--   Js          the values of `any` type with the language's conversions, exceptions, and
--               `JSON.stringify`
--   Options     the option bags: `ConfigGroupOpts`, `ConfigOpts` (pack/nodejs/provider.ts),
--               `ChartOpts`, `FetchOpts` (pack/nodejs/helm.ts), and resource options
--   Runtime     the events, the log and the parameter `External`
--   Resources   the generated classes of pack/nodejs/provider.ts: Class is their common shape,
--               Instance their constructor and `getInputs`, the other modules one per API group
--               and version, with one definition for each class
--   Types       pack/nodejs/types: Shape is the language of the types, Input and Output hold one
--               definition for each interface of input.ts and output.ts, Test the tests `isX`
--               (`accepts`), Find how a name is resolved, and Fits which values have a type
--   Yaml        the namespace `yaml` of pack/nodejs/provider.ts: Switch is the `switch` of
--               `parseYamlObject`, Collection/Labels that of `getResource`, Collection/Overloads
--               its signatures, Object the rest of `parseYamlObject`, and Document holds
--               `parseYamlDocument` (`parse_yaml_document`), `parse`, `ConfigFile`
--               (`new_config_file`), `ConfigGroup` (`new_config_group`) and `getResource`
--               (`get_resource`)
--   Path        pack/nodejs/path.ts: `quotePath` and `quoteWindowsPath`, each of the two regular
--               expressions as one scan from left to right
--   Helm        pack/nodejs/helm.ts: Fetch is `fetch`, Chart the constructor of `v2.Chart`
--               (`new_chart`), its `try` block (`expand_chart`) and its `finally` block (`clean_up`)
--   Provider    the class `Provider` of pack/nodejs/provider.ts
--   Tests       runs at concrete inputs, and the theorems at inputs that meet their conditions
--
-- The parts build on each other as in the source. A chart hands the stream that Helm prints to
-- `parse`; a collection's constructor registers the component, then makes its resources with itself
-- as their parent; `parseYamlObject` looks the object's type up in the cases and calls the
-- constructor of the case's class. A component is named by the position of its registration in the
-- log. All loops run over a given list, so that there is no fuel and no bound.
--
-- Not modelled: a number is carried by its text, and dates, binary data, functions and Pulumi
-- outputs are no values of the model; of `pulumi.Input<T>` only the plain values of `T` are. Objects
-- have no properties of their own that are called `toString` or `__proto__`. The objects of a stream
-- are not shared with each other, so that a callback that changes one of them changes no other. The
-- texts of the exceptions that the engine and Pulumi define are part of `External`. The file
-- pack/nodejs/index.ts only passes names on; the directories examples, tests, scripts and build hold
-- programs that use the package or release it. The Go packages under pkg and cmd, the resource
-- provider and the generator of the classes and the types, are other programs in another language.
pub mod Common
pub mod Js
pub mod Options
pub mod Runtime
pub mod Resources
pub mod Types
pub mod Yaml
pub mod Path
pub mod Helm
pub mod Provider
pub mod Tests
