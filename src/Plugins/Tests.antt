-- ===== src/Plugins/Tests.antt =====
-- Two plugins that have one capability in common.
use crapssim_control.Prelude.{String, List, none, [], ◌∷◌, ◌≡◌}
use crapssim_control.Plugins.Registry.{PluginSpec, Key, resolve, discover}
use crapssim_control.Plugins.First.{
  first_provider, register_specs, resolve-register_specs, HonestIf, discover-HonestIf,
}

abbrev plugin : String → PluginSpec
plugin name = record {
  name = name;
  version = "1.0.0";
  capabilities =
      record { kind = "verb"; name = "roll"; version = "1.0.0"; entry = "main:roll" } ∷ [];
  requires = [];
  description = "";
  path = none;
}

abbrev roll_key : Key
roll_key = record { kind = "verb"; name = "roll"; version = "1.0.0" }

abbrev found : List PluginSpec
found = plugin "author.first" ∷ plugin "author.second" ∷ []

resolve-register_specs_example :
    resolve roll_key (register_specs found []) ≡ first_provider roll_key found
resolve-register_specs_example = resolve-register_specs roll_key found

discover-HonestIf_example : HonestIf (discover found [])
discover-HonestIf_example = discover-HonestIf found
