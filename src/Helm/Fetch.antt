-- ===== src/Helm/Fetch.antt =====
-- `fetch` of pack/nodejs/helm.ts.
use pulumi_kubernetes.Common.{
  String, ◌<>◌, Bool, true, false, Option, none, some, List, [], ◌∷◌, ◌++◌, join,
}
use pulumi_kubernetes.Options.{FetchOpts}
use pulumi_kubernetes.Path.{quote_path}
use pulumi_kubernetes.Runtime.{External, M, ◌>>=◌, pure, perform, exec_sync}

-- `if (value !== undefined) { flags.push(`name ${quoted(value)}`); }`
abbrev pub push_value : List String → String → (String → String) → Option String → List String
push_value flags name quoted none = flags
push_value flags name quoted (some value) = flags ++ (name <> (" " <> quoted value)) ∷ []

-- `if (value === true) { flags.push(name); }`
abbrev pub push_switch : List String → String → Option Bool → List String
push_switch flags name (some true) = flags ++ name ∷ []
push_switch flags name _ = flags

-- `if (untar !== false) { flags.push(`--untar`); }`
abbrev pub push_untar : List String → Option Bool → List String
push_untar flags (some false) = flags
push_untar flags _ = flags ++ "--untar" ∷ []

module _ (env : External) where
  abbrev pub word : String → String
  word value = env.quote (value ∷ [])

  abbrev pub path : String → String
  path value = quote_path env.platform env.quote value

  -- The flags, pushed one after another.
  unfoldable pub fetch_flags : Option FetchOpts → List String
  fetch_flags none = []
  fetch_flags (some opts) =
      let flags = push_untar [] opts.untar in
      let flags = push_value flags "--version" word opts.version in
      let flags = push_value flags "--ca-file" path opts.ca_file in
      let flags = push_value flags "--cert-file" path opts.cert_file in
      let flags = push_value flags "--key-file" path opts.key_file in
      let flags = push_value flags "--destination" path opts.destination in
      let flags = push_value flags "--keyring" path opts.keyring in
      let flags = push_value flags "--password" word opts.password in
      let flags = push_value flags "--repo" word opts.repo in
      let flags = push_value flags "--untardir" path opts.untardir in
      let flags = push_value flags "--username" word opts.username in
      let flags = push_value flags "--home" path opts.home in
      let flags = push_switch flags "--devel" opts.devel in
      let flags = push_switch flags "--prov" opts.prov in push_switch flags "--verify" opts.verify

  unfoldable pub fetch_command : String → Option FetchOpts → String
  fetch_command chart opts =
      "helm fetch " <> (env.quote (chart ∷ []) <> (" " <> join " " (fetch_flags opts)))

  unfoldable pub fetch : String → Option FetchOpts → M (Unit {0})
  fetch chart opts = do
    output ← perform (exec_sync (fetch_command chart opts)) env.exec_sync
    pure tt
