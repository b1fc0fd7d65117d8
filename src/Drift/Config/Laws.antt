-- ===== src/Drift/Config/Laws.antt =====
-- What a loaded configuration guarantees.
use infrastructure_managemen.Common.{
  String, ◌≡◌, ◌↔◌, refl, ap, sym, ◌∙◌, inl, inr, true, false, not, none, List, [], ◌∷◌, arith, All,
  Bool-cases, Result, ok, err,
}
use package.text.Mathlib.Text.{starts_with}
use infrastructure_managemen.Common.Int.{pos, leb_ℤ, ltb_ℤ}
use infrastructure_managemen.Common.Text.{trim_space, to_lower}
use infrastructure_managemen.Common.Text.Laws.{trim_space_idem, to_lower_idem, to_lower-trim_space}
use infrastructure_managemen.Common.Checks.{bad_port, complain, complain_iff, is_blank, report_iff}
use infrastructure_managemen.Common.Clock.{Duration}
use infrastructure_managemen.Drift.Domain.{Component, parse_component}
use infrastructure_managemen.Drift.Config.{
  RetryConfig, Config, normalized, refused, check_components, none_given, own_errors, UrlParser,
  not_absolute, check_url, check_path, validate_http_client_config, config_errors, validate,
}

pub normalized_idem : (s : String) → normalized (normalized s) ≡ normalized s
unfolding normalized
normalized_idem s =
    ap to_lower (sym (to_lower-trim_space (trim_space s)) ∙ ap to_lower (trim_space_idem s))
    ∙ to_lower_idem (trim_space s)

pub refused_iff :
    (r : Result String Component) → (refused r ≡ false) ↔ ((c : Component) × (r ≡ ok c))
refused_iff (ok c) = (λ h. (c, refl), λ h. refl)
refused_iff (err e) = (λ h. absurd (cc), λ h. absurd (let (c, p) = h in cc))

-- What Validate asks of one client.
pub record IsValidClient (parse : UrlParser) (base_url path : String) (timeout : Duration)
    (retry : RetryConfig) : Type 0 where
  pub base_url_given : is_blank base_url ≡ false
  pub absolute : not_absolute (parse base_url) ≡ false
  pub path_given : is_blank path ≡ false
  pub path_rooted : starts_with path "/" ≡ true
  pub timeout_positive : leb_ℤ timeout (pos 0) ≡ false
  pub attempts_positive : leb_ℤ retry.max_attempts (pos 0) ≡ false
  pub backoff_positive : ltb_ℤ retry.backoff (pos 0) ≡ false

check_url_iff :
    (parse : UrlParser) (prefix base_url : String) (errs : List String)
    → (check_url parse prefix base_url errs ≡ [])
      ↔ (errs ≡ []) × ((is_blank base_url ≡ false) × (not_absolute (parse base_url) ≡ false))
unfolding check_url
check_url_iff parse prefix base_url errs = elim (Bool-cases (is_blank base_url)) [
  | inl e ↦ rw e (λ h. absurd (let p = (complain_iff true _ errs).0 h in cc), λ h. absurd (cc))
  | inr e ↦
      let (to, from) = complain_iff (not_absolute (parse base_url)) _ errs in
      rw e (λ h. ((to h).0, (refl, (to h).1)), λ h. from (h.0, h.1.1))
]

check_path_iff :
    (prefix path : String) (errs : List String)
    → (check_path prefix path errs ≡ [])
      ↔ (errs ≡ []) × ((is_blank path ≡ false) × (starts_with path "/" ≡ true))
unfolding check_path
check_path_iff prefix path errs = elim (Bool-cases (is_blank path)) [
  | inl e ↦ rw e (λ h. absurd (let p = (complain_iff true _ errs).0 h in cc), λ h. absurd (cc))
  | inr e ↦
      let (to, from) = complain_iff (not (starts_with path "/")) _ errs in
      rw e
        (λ h. ((to h).0, (refl, ground (arith, (to h).1))), λ h. from (h.0, ground (arith, h.1.1)))
]

pub validate_http_client_config_iff :
    (parse : UrlParser) (prefix base_url path : String) (timeout : Duration) (retry : RetryConfig)
    (errs : List String)
    → (validate_http_client_config parse prefix base_url path timeout retry errs ≡ [])
      ↔ (errs ≡ []) × IsValidClient parse base_url path timeout retry
unfolding validate_http_client_config
validate_http_client_config_iff parse prefix base_url path timeout retry errs =
    let e₁ = check_url parse prefix base_url errs in
    let e₂ = check_path prefix path e₁ in
    let (url, url') = check_url_iff parse prefix base_url errs in
    let (p, p') = check_path_iff prefix path e₁ in
    let (t, t') = complain_iff (leb_ℤ timeout (pos 0)) _ e₂ in
    let (a, a') = complain_iff (leb_ℤ retry.max_attempts (pos 0)) _ _ in
    let (b, b') = complain_iff (ltb_ℤ retry.backoff (pos 0)) _ _ in
    (
      λ h.
          let (ha, hb) = b h in
          let (ht, hr) = a ha in
          let (hp, htimeout) = t ht in
          let (hu, hpath) = p hp in
          let (clean, hurl) = url hu in
          (
            clean,
            record {
              base_url_given = hurl.0;
              absolute = hurl.1;
              path_given = hpath.0;
              path_rooted = hpath.1;
              timeout_positive = htimeout;
              attempts_positive = hr;
              backoff_positive = hb;
            },
          ),
      λ h.
          let v = h.1 in
          b' (
            a' (
              t' (
                p' (url' (h.0, (v.base_url_given, v.absolute)), (v.path_given, v.path_rooted)),
                v.timeout_positive,
              ),
              v.attempts_positive,
            ),
            v.backoff_positive,
          ),
    )

check_components_iff :
    (cs errs : List String)
    → (check_components cs errs ≡ [])
      ↔ (errs ≡ []) × All (λ (c : String). refused (parse_component c) ≡ false) cs
unfolding check_components
check_components_iff [] errs = (λ h. (h, tt), λ h. h.0)
check_components_iff (c ∷ cs) errs =
    let (to, from) = complain_iff (refused (parse_component c)) _ errs in
    let (rest, rest') = check_components_iff cs (complain (refused (parse_component c)) _ errs) in
    (
      λ h. ((to (rest h).0).0, ((to (rest h).0).1, (rest h).1)),
      λ h. rest' (from (h.0, h.1.0), h.1.1),
    )

-- What Validate asks of a configuration.
pub record IsValid (parse : UrlParser) (c : Config) : Type 0 where
  pub host : is_blank c.server.host ≡ false
  pub port : bad_port c.server.port ≡ false
  pub level : is_blank c.logging.level ≡ false
  pub interval : leb_ℤ c.detection.interval (pos 0) ≡ false
  pub cooldown : ltb_ℤ c.anti_spam.reconcile_cooldown (pos 0) ≡ false
  pub some_component : none_given c.detection.enabled_components ≡ false
  pub components :
      All (λ (s : String). refused (parse_component s) ≡ false) c.detection.enabled_components
  pub inventory :
      IsValidClient parse c.clients.inventory.base_url c.clients.inventory.hosts_path
        c.clients.inventory.timeout c.clients.inventory.retry
  pub parser :
      IsValidClient parse c.clients.parser.base_url c.clients.parser.desired_state_path
        c.clients.parser.timeout c.clients.parser.retry
  pub reconciler :
      IsValidClient parse c.clients.reconciler.base_url c.clients.reconciler.reconcile_path
        c.clients.reconciler.timeout c.clients.reconciler.retry

-- Validate accepts exactly the configurations with a host, a port from 1 to 65535, a level, a positive interval,
-- a cooldown that is not negative, at least one component and supported ones only, and three clients
-- with an absolute URL, a rooted path, a positive timeout, at least one attempt and no negative backoff.
pub validate_config_iff :
    (parse : UrlParser) (c : Config) → (validate parse c ≡ none) ↔ IsValid parse c
unfolding validate config_errors own_errors
validate_config_iff parse c =
    let i = c.clients.inventory in
    let p = c.clients.parser in
    let r = c.clients.reconciler in
    let (rep, rep') = report_iff (config_errors parse c) in
    let (vr, vr') =
      validate_http_client_config_iff parse "clients.reconciler" r.base_url r.reconcile_path
        r.timeout r.retry _ in
    let (vp, vp') =
      validate_http_client_config_iff parse "clients.parser" p.base_url p.desired_state_path
        p.timeout p.retry _ in
    let (vi, vi') =
      validate_http_client_config_iff parse "clients.inventory" i.base_url i.hosts_path i.timeout
        i.retry (own_errors c) in
    let (cs, cs') = check_components_iff c.detection.enabled_components _ in
    let (n, n') = complain_iff (none_given c.detection.enabled_components) _ _ in
    let (cd, cd') = complain_iff (ltb_ℤ c.anti_spam.reconcile_cooldown (pos 0)) _ _ in
    let (iv, iv') = complain_iff (leb_ℤ c.detection.interval (pos 0)) _ _ in
    let (lv, lv') = complain_iff (is_blank c.logging.level) _ _ in
    let (pt, pt') = complain_iff (bad_port c.server.port) _ _ in
    let (ht, ht') =
      complain_iff {A = String} (is_blank c.server.host) "server.host is required" [] in
    (
      λ h.
          let (h₁, reconciler) = vr (rep h) in
          let (h₂, parser) = vp h₁ in
          let (h₃, inventory) = vi h₂ in
          let (h₄, components) = cs h₃ in
          let (h₅, some_component) = n h₄ in
          let (h₆, cooldown) = cd h₅ in
          let (h₇, interval) = iv h₆ in
          let (h₈, level) = lv h₇ in
          let (h₉, port) = pt h₈ in
          record {
            host = (ht h₉).1;
            port = port;
            level = level;
            interval = interval;
            cooldown = cooldown;
            some_component = some_component;
            components = components;
            inventory = inventory;
            parser = parser;
            reconciler = reconciler;
          },
      λ v. rep' (
          vr' (
            vp' (
              vi' (
                cs' (
                  n' (
                    cd' (
                      iv' (lv' (pt' (ht' (refl, v.host), v.port), v.level), v.interval),
                      v.cooldown,
                    ),
                    v.some_component,
                  ),
                  v.components,
                ),
                v.inventory,
              ),
              v.parser,
            ),
            v.reconciler,
          )),
    )
