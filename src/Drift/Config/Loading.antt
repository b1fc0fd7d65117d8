-- ===== src/Drift/Config/Loading.antt =====
-- What Load guarantees, and that parseEnabledComponents cannot fail after it.
use infrastructure_managemen.Common.Checks.{is_blank}
use infrastructure_managemen.Common.{
  String, ◌≡◌, refl, ap, ◌∙◌, subst, inl, inr, false, ◌||◌, Option, none, some, List, [], ◌∷◌,
  arith, ◌==◌, All, Bool-cases, eq_iff, Result, ok, err,
}
use infrastructure_managemen.Common.Distinct.{AreDistinct, split_new}
use infrastructure_managemen.Common.Maps.{Map, has, insert}
use infrastructure_managemen.Drift.Domain.{Component, parse_component, node_exporter, cadvisor}
use infrastructure_managemen.Drift.Config.{
  Config, normalized, normalize_components, refused, UrlParser, validate, normalize, finish_load,
  load_read, load, parse_enabled_components, ConfigError,
}
use infrastructure_managemen.Drift.Config.Laws.{
  normalized_idem, refused_iff, IsValid, validate_config_iff,
}

-- The texts are normalized, distinct, and not among the seen ones.
record AreFresh (seen : Map (Unit {0})) (cs : List String) : Type 0 where
  unseen : All (λ (c : String). has c seen ≡ false) cs
  distinct : AreDistinct cs
  plain : All (λ (c : String). normalized c ≡ c) cs

normalize_components-AreFresh :
    (seen : Map (Unit {0})) (items : List String) → AreFresh seen (normalize_components seen items)
unfolding normalize_components AreDistinct
normalize_components-AreFresh seen [] = record { unseen = tt; distinct = tt; plain = tt }
normalize_components-AreFresh seen (item ∷ items) =
    elim (Bool-cases (normalized item == "" || has (normalized item) seen)) [
      | inl skip ↦ rw skip (normalize_components-AreFresh seen items)
      | inr new ↦
          let rest = normalize_components-AreFresh (insert (normalized item) tt seen) items in
          let (others, unseen) =
            (split_new (normalized item)
                (normalize_components (insert (normalized item) tt seen) items) seen).0
              rest.unseen in
          rw new (record {
            unseen = (ground arith, unseen);
            distinct = (others, rest.distinct);
            plain = (normalized_idem item, rest.plain);
          })
    ]

-- A component that is parsed is the normalized text.
parse_component-eq : (s : String) (c : Component) → parse_component s ≡ ok c → c ≡ normalized s
unfolding parse_component normalized
parse_component-eq s c h =
    ground (arith, eq_iff (normalized s) node_exporter, eq_iff (normalized s) cadvisor)

parse_enabled_components-eq :
    (cs : List String)
    → All (λ (c : String). normalized c ≡ c) cs
    → All (λ (c : String). refused (parse_component c) ≡ false) cs
    → parse_enabled_components cs ≡ ok cs
unfolding parse_enabled_components
parse_enabled_components-eq [] plain known = refl
parse_enabled_components-eq (c ∷ cs) plain known =
    let (d, parsed) = (refused_iff (parse_component c)).0 known.0 in
    rw (parsed, parse_enabled_components-eq cs plain.1 known.1)
      (ap (λ (e : String). let r : Result String (List Component) = ok (e ∷ cs) in r)
        (parse_component-eq c d parsed ∙ plain.0))

-- A configuration that Run can use.
pub record IsUsable (parse : UrlParser) (c : Config) : Type 0 where
  pub valid : IsValid parse c
  pub distinct : AreDistinct c.detection.enabled_components
  pub parsed :
      parse_enabled_components c.detection.enabled_components ≡ ok c.detection.enabled_components

normalize-IsUsable :
    (parse : UrlParser) (c : Config)
    → validate parse (normalize c) ≡ none
    → IsUsable parse (normalize c)
unfolding normalize
normalize-IsUsable parse c h =
    let v = (validate_config_iff parse (normalize c)).0 h in
    let f = normalize_components-AreFresh [] c.detection.enabled_components in
    record {
      valid = v;
      distinct = f.distinct;
      parsed =
          parse_enabled_components-eq (normalize_components [] c.detection.enabled_components)
            f.plain v.components;
    }

finish_load-eq-ok :
    (d : Config) (verdict : Option String) (absolute : Result String String) (c : Config)
    (p : String)
    → finish_load d verdict absolute ≡ ok (c, p)
    → (verdict ≡ none) × (d ≡ c)
finish_load-eq-ok d (some m) absolute c p h = absurd (cc)
finish_load-eq-ok d none (err e) c p h = absurd (cc)
finish_load-eq-ok d none (ok q) c p h = (refl, cc)

loaded-IsUsable :
    (parse : UrlParser) (r : Result ConfigError Config) (absolute : Result String String)
    (c : Config) (p : String)
    → load_read parse r absolute ≡ ok (c, p)
    → IsUsable parse c
loaded-IsUsable parse (err e) absolute c p h = absurd (cc)
loaded-IsUsable parse (ok d) absolute c p h =
    let (valid, same) =
      finish_load-eq-ok (normalize d) (validate parse (normalize d)) absolute c p h in
    subst (IsUsable parse) same (normalize-IsUsable parse d valid)

-- A configuration that Load returns is valid, its components are distinct, and parseEnabledComponents returns
-- them unchanged.
pub load-IsUsable :
    (parse : UrlParser) (read : String → Result ConfigError Config)
    (absolute : String → Result String String) (path : String) (c : Config) (abs_path : String)
    → load parse read absolute path ≡ ok (c, abs_path)
    → IsUsable parse c
unfolding load
load-IsUsable parse read absolute path c abs_path h = elim (Bool-cases (is_blank path)) [
  | inl blank ↦ absurd (let p = rw blank at h in cc)
  | inr given ↦ loaded-IsUsable parse (read path) (absolute path) c abs_path (rw given at h)
]
