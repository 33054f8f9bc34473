-- ===== src/Yaml/Document/Below.antt =====
-- What a group of files and texts may register, as a step relation on the log.
use pulumi_kubernetes.Common.{
  ℕ, String, ◌≡◌, refl, ◌⊎◌, inl, inr, [], ◌∷◌, ◌++◌, append_assoc, length,
}
use pulumi_kubernetes.Js.Outcome.{Outcome}
use pulumi_kubernetes.Options.{ConfigOpts, file}
use pulumi_kubernetes.Runtime.{Log, component, glob_sync, read_file}
use pulumi_kubernetes.Resources.Instance.{CustomResource}
use pulumi_kubernetes.Yaml.Object.Branches.{registration}
use pulumi_kubernetes.Yaml.Document.{Resources, parent_of}
use pulumi_kubernetes.Yaml.Document.Registered.{IsRegistered}
use pulumi_kubernetes.Yaml.Document.Steps.{Holds-document}
use pulumi_kubernetes.Yaml.Document.Files.{file_opened}

-- The component `p` is the one called `self`, or that of a file whose parent is `self` and whose
-- registration is in the log.
abbrev pub IsParent : ℕ → Log → ℕ → Type 0
IsParent self log p =
    (p ≡ self)
    ⊎ ((before : Log) × (after : Log) × (name : String) × (config : ConfigOpts) × (log
          ≡ before
            ++ component "kubernetes:yaml:ConfigFile" name (file config) (parent_of self) ∷ after)
        × (p ≡ length before))

-- The logs that a group called `self` reaches from `start`: it expands patterns, reads files, opens
-- files with itself as the parent, and registers resources with itself or such a file as the parent.
pub data IsBelow (self : ℕ) (start : Log) : Log → Type 0 where
  here : IsBelow self start start
  expanded :
      (log : Log) (pattern : String)
      → IsBelow self start log
      → IsBelow self start (log ++ glob_sync pattern ∷ [])
  loaded :
      (log : Log) (name : String)
      → IsBelow self start log
      → IsBelow self start (log ++ read_file name ∷ [])
  opened :
      (log : Log) (name : String) (config : ConfigOpts)
      → IsBelow self start log
      → IsBelow self start (file_opened name config (parent_of self) log)
  registered :
      (log : Log) (p : ℕ) (r : CustomResource)
      → IsParent self log p
      → r.opts ≡ parent_of p
      → IsBelow self start log
      → IsBelow self start (log ++ registration r ∷ [])

IsParent-append :
    (self : ℕ) (log more : Log) (p : ℕ) → IsParent self log p → IsParent self (log ++ more) p
IsParent-append self log more p (inl same) = inl same
IsParent-append self log more p (inr (before, after, name, config, e, at)) =
    inr (before, after ++ more, name, config, rw e (append_assoc before _ more), at)

module _ (self : ℕ) (start : Log) where
  -- The document of a file, with the file's component as the parent.
  pub IsBelow-document :
      (p : ℕ) (log : Log) (x : Outcome Resources × Log)
      → IsParent self log p
      → IsBelow self start log
      → IsRegistered (parent_of p) log x
      → IsBelow self start x.1
  IsBelow-document p log x parent below run =
      (Holds-document (λ l. IsParent self l p × IsBelow self start l) (parent_of p)
        (λ l r e h. (IsParent-append self l _ p h.0, registered l p r h.0 e h.1)) log x run
        (parent, below)).1

  -- A resource of the group itself.
  pub IsBelow-registered :
      (log : Log) (r : CustomResource)
      → r.opts ≡ parent_of self
      → IsBelow self start log
      → IsBelow self start (log ++ registration r ∷ [])
  IsBelow-registered log r e below = registered log self r (inl refl) e below
