-- ===== src/Plugins/First.antt =====
-- What a registry resolves to.
use crapssim_control.Prelude.{
  arith, Bool, true, false, Option, none, some, List, [], ◌∷◌, ◌≡◌, ◌∙◌, refl, ap, sym, inl, inr,
  if◌then◌else◌, Bool-cases, Option-cases, is_some,
}
use mathlib.Core.Option.{some-injective}
use crapssim_control.Prelude.Dict.{lookup, insert, lookup-insert}
use crapssim_control.Plugins.Registry.{
  Capability, PluginSpec, Key, same_key, same_key_iff, Key_Eq, key_of, Registry, register_all,
  register, validate, resolve, provides, discover_step, discover,
}

-- The first answer, and the spec if it provides the key.
abbrev pub or_else : Option PluginSpec → Option PluginSpec → Option PluginSpec
or_else none b = b
or_else (some a) b = some a

abbrev pub if_provides : Bool → PluginSpec → Option PluginSpec
if_provides b spec = if b then some spec else none

absorbed : (found : Option PluginSpec) → found ≡ or_else found none
absorbed none = refl
absorbed (some s) = refl

same_refl : (key : Key) → same_key key key ≡ true
same_refl key = (same_key_iff key key).1 refl

one_capability :
    (key : Key) (spec : PluginSpec) (c : Capability) (r : Registry)
    → lookup key (if is_some (lookup (key_of c) r) then r else insert (key_of c) spec r)
      ≡ or_else (lookup key r) (if_provides (same_key (key_of c) key) spec)
one_capability key spec c r = elim (Bool-cases (same_key (key_of c) key)) [
  | inl f ↦
      let here : key_of c ≡ key = (same_key_iff (key_of c) key).0 f in
      elim (Option-cases (lookup key r)) [
        | inl e ↦ rw (f, here, e) (lookup-insert key key spec r ∙ rw (same_refl key) refl)
        | inr (s, e) ↦ rw (f, here, e) e
      ]
  | inr f ↦ elim (Option-cases (lookup (key_of c) r)) [
    | inl e ↦ rw e (lookup-insert (key_of c) key spec r ∙ rw f (absorbed (lookup key r)))
    | inr (s, e) ↦ rw (e, f) (absorbed (lookup key r))
  ]
]

first_or :
    (found : Option PluginSpec) (spec : PluginSpec) (b : Bool)
    → or_else (or_else found (some spec)) (if_provides b spec) ≡ or_else found (some spec)
first_or none spec b = refl
first_or (some s) spec b = refl

lookup-register_all :
    (key : Key) (spec : PluginSpec) (caps : List Capability) (r : Registry)
    → lookup key (register_all spec caps r)
      ≡ or_else (lookup key r) (if_provides (provides key caps) spec)
unfolding register_all
lookup-register_all key spec [] r = elim (Option-cases (lookup key r)) [
  | inl e ↦ rw e refl
  | inr (s, e) ↦ rw e refl
]
lookup-register_all key spec (c ∷ caps) r =
    let next = if is_some (lookup (key_of c) r) then r else insert (key_of c) spec r in
    lookup-register_all key spec caps next
    ∙ ap (λ o. or_else o (if_provides (provides key caps) spec)) (one_capability key spec c r)
    ∙ elim (Bool-cases (same_key (key_of c) key)) [
      | inl f ↦ rw f (first_or (lookup key r) spec (provides key caps))
      | inr f ↦ rw f (ground (arith))
    ]

pub lookup-register :
    (key : Key) (spec : PluginSpec) (r : Registry)
    → lookup key (register spec r)
      ≡ or_else (lookup key r) (if_provides (provides key spec.capabilities) spec)
unfolding register
lookup-register key spec r = lookup-register_all key spec spec.capabilities r

-- The first spec of a list that has the capability
abbrev pub first_provider : Key → List PluginSpec → Option PluginSpec
first_provider key [] = none
first_provider key (spec ∷ specs) =
    or_else (if_provides (provides key spec.capabilities) spec) (first_provider key specs)

unfoldable pub register_specs : List PluginSpec → Registry → Registry
register_specs [] r = r
register_specs (spec ∷ specs) r = register_specs specs (register spec r)

or_else_assoc : (a b c : Option PluginSpec) → or_else (or_else a b) c ≡ or_else a (or_else b c)
or_else_assoc none b c = refl
or_else_assoc (some s) b c = refl

lookup-register_specs :
    (key : Key) (specs : List PluginSpec) (r : Registry)
    → lookup key (register_specs specs r) ≡ or_else (lookup key r) (first_provider key specs)
unfolding register_specs
lookup-register_specs key [] r = absorbed (lookup key r)
lookup-register_specs key (spec ∷ specs) r =
    lookup-register_specs key specs (register spec r)
    ∙ ap (λ o. or_else o (first_provider key specs)) (lookup-register key spec r)
    ∙ or_else_assoc (lookup key r) (if_provides (provides key spec.capabilities) spec)
        (first_provider key specs)

-- After any specs are registered in order, a kind, name and version resolves to the first of them that has that
-- capability, and to none if no spec has it.
pub resolve-register_specs :
    (key : Key) (specs : List PluginSpec)
    → resolve key (register_specs specs []) ≡ first_provider key specs
unfolding resolve lookup
resolve-register_specs key specs = lookup-register_specs key specs []

-- Each spec of the registry provides the key that it stands under.
abbrev pub IsHonest : Registry → Type 0
IsHonest r =
    (key : Key) (spec : PluginSpec)
    → lookup key r ≡ some spec
    → provides key spec.capabilities ≡ true

register-IsHonest : (new : PluginSpec) (r : Registry) → IsHonest r → IsHonest (register new r)
register-IsHonest new r h key spec e =
    let after : or_else (lookup key r) (if_provides (provides key new.capabilities) new)
        ≡ some spec =
      sym (lookup-register key new r) ∙ e in
    elim (Option-cases (lookup key r)) [
      | inl f ↦ elim (Bool-cases (provides key new.capabilities)) [
        | inl g ↦
            let same : some new ≡ some spec = rw (f, g) at after in
            rw (sym (some-injective new spec same)) g
        | inr g ↦ ground (arith, rw (f, g) at after)
      ]
      | inr (s, f) ↦ h key spec (f ∙ (rw f at after))
    ]

abbrev pub HonestIf : Option Registry → Type 0
HonestIf none = Unit
HonestIf (some r) = IsHonest r

step_honest :
    (spec : PluginSpec) (r : Registry) (valid : Option Bool)
    → IsHonest r
    → HonestIf (discover_step spec r valid)
unfolding discover_step
step_honest spec r none h = tt
step_honest spec r (some true) h = register-IsHonest spec r h
step_honest spec r (some false) h = h

and_then :
    (specs : List PluginSpec) (o : Option Registry)
    → HonestIf o
    → ((r : Registry) → IsHonest r → HonestIf (discover specs r))
    → HonestIf (elim o as (λ _. Option Registry) [ none ↦ none | some next ↦ discover specs next ])
and_then specs none h more = tt
and_then specs (some r) h more = more r h

discover_from : (specs : List PluginSpec) (r : Registry) → IsHonest r → HonestIf (discover specs r)
unfolding discover
discover_from [] r h = h
discover_from (spec ∷ specs) r h =
    and_then specs (discover_step spec r (validate spec r)) (step_honest spec r (validate spec r) h)
      (λ next k. discover_from specs next k)

-- Whatever specs are found, in any order: if no name is refused, every kind, name and version that the registry
-- resolves is a capability of the spec that it resolves to.
pub discover-HonestIf : (specs : List PluginSpec) → HonestIf (discover specs [])
unfolding lookup
discover-HonestIf specs = discover_from specs [] (λ key spec e. ground (arith, e))
