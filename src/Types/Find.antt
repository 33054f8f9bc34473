-- ===== src/Types/Find.antt =====
-- How the namespaces of pack/nodejs/types resolve a name.
use pulumi_kubernetes.Common.{
  String, ◌≡◌, Bool, true, ◌&&◌, ◌==◌, if◌then◌else◌, Option, none, some, List, [], ◌∷◌, all, arith,
  eq_iff,
}
use pulumi_kubernetes.Types.Shape.{Interface, Field, Namespaces}

-- The first interface of the name.
unfoldable pub find_named : String → List Interface → Option Interface
find_named name [] = none
find_named name (i ∷ is) = if i.name == name then some i else find_named name is

-- `namespace.name`
unfoldable pub find_interface : Namespaces → String → String → Option Interface
unfolding find_named
find_interface [] namespace name = none
find_interface ((k, is) ∷ types) namespace name =
    if k == namespace then find_named name is else find_interface types namespace name

unfoldable pub find_field : String → List Field → Option Field
find_field name [] = none
find_field name (f ∷ fs) = if f.name == name then some f else find_field name fs

-- A test that all interfaces of a file pass.
unfoldable pub all_interfaces : (Interface → Bool) → Namespaces → Bool
all_interfaces p [] = true
all_interfaces p ((_, is) ∷ types) = all p is && all_interfaces p types

find_named-all :
    (p : Interface → Bool) (name : String) (is : List Interface) (i : Interface)
    → all p is ≡ true
    → find_named name is ≡ some i
    → p i ≡ true
unfolding find_named
find_named-all p name [] i h e = cc
find_named-all p name (j ∷ is) i h e = ground (arith, find_named-all p name is i)

pub find_interface-all :
    (p : Interface → Bool) (types : Namespaces) (namespace name : String) (i : Interface)
    → all_interfaces p types ≡ true
    → find_interface types namespace name ≡ some i
    → p i ≡ true
unfolding find_interface all_interfaces
find_interface-all p [] namespace name i h e = cc
find_interface-all p ((k, is) ∷ types) namespace name i h e =
    ground (arith, find_named-all p name is i, find_interface-all p types namespace name i)

pub find_field-all :
    (p : Field → Bool) (name : String) (fs : List Field) (f : Field)
    → all p fs ≡ true
    → find_field name fs ≡ some f
    → (p f ≡ true) × (f.name ≡ name)
unfolding find_field
find_field-all p name [] f h e = cc
find_field-all p name (g ∷ fs) f h e =
    ground (arith, eq_iff g.name name, find_field-all p name fs f)
