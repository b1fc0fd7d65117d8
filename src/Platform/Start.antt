-- ===== src/Platform/Start.antt =====
-- The detector beside the other two services.
mod Tests
use Prim.Native.String.{◌++◌}
use infrastructure_managemen.Common.Logger.{Build, new_logger}
use infrastructure_managemen.Common.{
  ℕ, String, ◌≡◌, ap, Option, List, [], Result, ok, bind-eq-ok, subst,
}
use infrastructure_managemen.Common.Clock.{Time}
use infrastructure_managemen.Common.Resolve.{Paths}
use infrastructure_managemen.Drift.App.{Outside, prepare, run_service}
use infrastructure_managemen.Drift.App.Readiness.{AreAnswered, IsUp, run_service-IsUp}
use infrastructure_managemen.Drift.Clients.Retry.{response}
use infrastructure_managemen.Drift.Config.{
  Config, ConfigError, UrlParser, load, parse_enabled_components,
}
use infrastructure_managemen.Drift.Config.Loading.{IsUsable, load-IsUsable}
use infrastructure_managemen.Drift.Domain.{Component}
use infrastructure_managemen.Inventory
use infrastructure_managemen.Inventory.App.{Started, Setup, run_scheduler}
use infrastructure_managemen.Inventory.Cadvisor.Source.{Link}
use infrastructure_managemen.Inventory.Sync.{Env}
use infrastructure_managemen.Inventory.Http.Handlers.{answer_hosts}
use infrastructure_managemen.Parser
use infrastructure_managemen.Parser.Http.Handlers.{get_desired_state}
use infrastructure_managemen.Parser.Loader.{Files}
use infrastructure_managemen.Parser.Manifest.{StructurizrManifest}
use infrastructure_managemen.Parser.Values.{Floats}
use infrastructure_managemen.Platform
use infrastructure_managemen.Platform.Actual.{fetch_actual_state-run_scheduler}
use infrastructure_managemen.Platform.Actual.Codec.{Reads}
use infrastructure_managemen.Platform.Desired.{fetch_desired_state-start_service}

-- A loaded configuration whose logger could be made, and the components that Run reads from it.
pub record IsConfigured (outside : Outside) (cfg : Config) (components : List Component)
    : Type 0 where
  pub parse : UrlParser
  pub read : String → Result ConfigError Config
  pub absolute : String → Result String String
  pub build : Build
  pub path : String
  pub prepared : prepare outside parse read absolute build path ≡ ok (cfg, components)

-- A ParserSvc that has started, and that answers every request for the desired state.
pub record ParserAnswers (outside : Outside) (cfg : Config) : Type 1 where
  pub floats : Floats
  pub Bytes : Type 0
  pub files : Files Bytes
  pub paths : Paths
  pub unmarshal : Bytes → Result String (StructurizrManifest floats.Float)
  pub read : String → Result Parser.Config.ConfigError Parser.Config.Config
  pub now : Time
  pub build : Build
  pub config_path : String
  pub store : Parser.Store.Store
  pub started :
      Parser.App.start_service floats files paths unmarshal read build now config_path ≡ ok store
  pub t : Time
  pub parsed : outside.times.parse (outside.times.print store.snapshot.metadata.loaded_at) ≡ ok t
  pub body : String
  pub document : outside.documents.unmarshal body ≡ ok (get_desired_state outside.times store).body
  pub answered :
      (w : outside.World)
      → (outside.http.get
          (cfg.clients.parser.base_url ++ cfg.clients.parser.desired_state_path)
          w).0
        ≡ response (get_desired_state outside.times store).status body

-- The answer of a started InventorySvc to one request, after some of its scheduler's ticks.
pub record Answer (outside : Outside) (cfg : Config) (env : Env) (link : Link env.World)
    (quote : String → String) (started : Started) (v : env.World) (w : outside.World) : Type 0 where
  pub ticks : ℕ
  pub t : Option Time
  pub body : String
  pub reads :
      Reads outside.times
        (run_scheduler env link quote started ticks v).0.snapshot.metadata.last_sync_at
        t
  pub document :
      outside.documents.unmarshal body
      ≡ ok (answer_hosts outside.times (run_scheduler env link quote started ticks v).0 []).body
  pub answered :
      (outside.http.get (cfg.clients.inventory.base_url ++ cfg.clients.inventory.hosts_path) w).0
      ≡ response
          (answer_hosts outside.times (run_scheduler env link quote started ticks v).0 []).status
          body

-- An InventorySvc that has started, and that answers every request for the hosts.
pub record InventoryAnswers (outside : Outside) (cfg : Config) : Type 1 where
  pub env : Env
  pub link : Link env.World
  pub quote : String → String
  pub Bytes : Type 0
  pub setup : Setup Bytes
  pub config_path : String
  pub start_world : env.World
  pub world : env.World
  pub first : Started
  pub started :
      Inventory.App.start_service env link quote setup config_path start_world ≡ (ok first, world)
  pub answer : (w : outside.World) → Answer outside cfg env link quote first world w

module _ (outside : Outside) (cfg : Config) (components : List Component) where
  configured-IsUsable : (c : IsConfigured outside cfg components) → IsUsable c.parse cfg
  unfolding prepare
  configured-IsUsable c =
      let (loaded, e, h₁) = bind-eq-ok _ (load c.parse c.read c.absolute c.path) _ _ c.prepared in
      let (log, logged, h') = bind-eq-ok _ (new_logger c.build loaded.0.logging.level) _ _ h₁ in
      let (parsed, e', h₂) =
        bind-eq-ok _ (parse_enabled_components loaded.0.detection.enabled_components) _ _ h' in
      let same : loaded.0 ≡ cfg = cc in
      subst (IsUsable c.parse) same
        (load-IsUsable c.parse c.read c.absolute c.path loaded.0 loaded.1 e)

  answered-AreAnswered :
      IsConfigured outside cfg components
      → ParserAnswers outside cfg
      → InventoryAnswers outside cfg
      → AreAnswered outside cfg components
  answered-AreAnswered c p i =
      let valid = (configured-IsUsable c).valid in
      record {
        actual = λ w.
            let a = i.answer w in
            let store = (run_scheduler i.env i.link i.quote i.first a.ticks i.world).0 in
            (
              Platform.Actual.project a.t store.snapshot,
              ap (λ r. r.0)
                  (fetch_actual_state-run_scheduler outside.times outside.documents outside.http
                    cfg.clients.inventory i.env i.link i.quote i.setup i.config_path i.start_world
                    i.world i.first a.ticks a.t a.body w
                    (outside.http.get
                      (cfg.clients.inventory.base_url ++ cfg.clients.inventory.hosts_path) w).1
                    i.started valid.inventory.attempts_positive a.reads a.document
                    (ap
                      (λ r. (
                        r,
                        (outside.http.get
                            (cfg.clients.inventory.base_url ++ cfg.clients.inventory.hosts_path)
                            w).1,
                      ))
                      a.answered)),
            );
        desired = λ w. (
          Platform.Desired.project p.t p.store.snapshot,
          ap (λ r. r.0)
              (fetch_desired_state-start_service outside.times outside.documents outside.http
                cfg.clients.parser p.floats p.files p.paths p.unmarshal p.read p.build p.now
                p.config_path p.store p.t p.body w
                (outside.http.get
                  (cfg.clients.parser.base_url ++ cfg.clients.parser.desired_state_path) w).1
                p.started valid.parser.attempts_positive p.parsed p.document
                (ap
                  (λ r. (
                    r,
                    (outside.http.get
                        (cfg.clients.parser.base_url ++ cfg.clients.parser.desired_state_path) w).1,
                  ))
                  (p.answered w))),
        );
      }

  -- Where the detector has loaded its configuration and made its logger, ParserSvc has started and answers every request for the desired
  -- state, and InventorySvc has started and answers every request for the hosts (each with the answer of its handler, in
  -- a document that is read as it was written, whose instants can be read as they were printed), the detector is idle
  -- and ready after its first cycle, and stays so after any number of its scheduler's ticks.
  pub run_service-start_service :
      (ticks : ℕ) (w : outside.World)
      → IsConfigured outside cfg components
      → ParserAnswers outside cfg
      → InventoryAnswers outside cfg
      → IsUp outside cfg components (run_service outside cfg components ticks w).0
  run_service-start_service ticks w c p i =
      run_service-IsUp outside cfg components ticks w (answered-AreAnswered c p i)
