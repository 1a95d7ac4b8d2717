-- ===== src/Plugins/Registry.antt =====
-- PluginRegistry. A manifest that is read from a file is a spec here, and the parsing of its YAML is left out.
use crapssim_control.Prelude.{
  arith, String, Bool, true, false, ◌&&◌, ◌||◌, not, Option, none, some, List, [], ◌∷◌, ◌≡◌, ◌↔◌,
  if◌then◌else◌, is_some, str_eq, eq_iff,
}
use text.Mathlib.Text.{find?}
use crapssim_control.Prelude.Dict.{Dict, Eq, lookup, insert}

pub record Capability : Type 0 where
  pub kind : String
  pub name : String
  pub version : String
  pub entry : String

pub record PluginSpec : Type 0 where
  pub name : String
  pub version : String
  pub capabilities : List Capability
  pub requires : Dict String String
  pub description : String
  pub path : Option String

-- The key of a capability: its kind, name and version.
pub record Key : Type 0 where
  pub kind : String
  pub name : String
  pub version : String

abbrev pub same_key : Key → Key → Bool
same_key a b = str_eq a.kind b.kind && str_eq a.name b.name && str_eq a.version b.version

pub same_key_iff : (a b : Key) → (same_key a b ≡ true) ↔ (a ≡ b)
same_key_iff a b =
    ground (arith, eq_iff a.kind b.kind, eq_iff a.name b.name, eq_iff a.version b.version)

instance abbrev pub Key_Eq : Eq Key
Key_Eq = record { beq = same_key; beq_iff = same_key_iff }

abbrev pub key_of : Capability → Key
key_of c = record { kind = c.kind; name = c.name; version = c.version }

-- `self._registry`
abbrev pub Registry : Type 0
Registry = Dict Key PluginSpec

-- What is registered first stays.
unfoldable pub register_all : PluginSpec → List Capability → Registry → Registry
register_all spec [] r = r
register_all spec (c ∷ caps) r =
    register_all spec caps (if is_some (lookup (key_of c) r) then r else insert (key_of c) spec r)

unfoldable pub register : PluginSpec → Registry → Registry
register spec r = register_all spec spec.capabilities r

abbrev same_plugin : PluginSpec → PluginSpec → Bool
same_plugin a b = str_eq a.name b.name && str_eq a.version b.version

abbrev pub is_known : PluginSpec → Registry → Bool
is_known spec [] = false
is_known spec ((key, other) ∷ r) = same_plugin spec other || is_known spec r

-- `validate`, where `none` is the ValueError for a name without a dot.
unfoldable pub validate : PluginSpec → Registry → Option Bool
validate spec r = if not (is_some (find? spec.name ".")) then none else some (not (is_known spec r))

unfoldable pub resolve : Key → Registry → Option PluginSpec
resolve key r = lookup key r

abbrev pub provides : Key → List Capability → Bool
provides key [] = false
provides key (c ∷ caps) = same_key (key_of c) key || provides key caps

unfoldable pub resolve_by_ref : String → Key → Registry → Option PluginSpec
resolve_by_ref ref key [] = none
resolve_by_ref ref key ((k, spec) ∷ r) =
    let rest = resolve_by_ref ref key r in
    if str_eq spec.name ref && provides key spec.capabilities then some spec else rest

-- The specs of `discover` in the order in which they are found: a valid one is registered.
unfoldable pub discover_step : PluginSpec → Registry → Option Bool → Option Registry
discover_step spec r none = none
discover_step spec r (some true) = some (register spec r)
discover_step spec r (some false) = some r

unfoldable pub discover : List PluginSpec → Registry → Option Registry
discover [] r = some r
discover (spec ∷ specs) r = elim (discover_step spec r (validate spec r)) [
  | none ↦ none
  | some next ↦ discover specs next
]
