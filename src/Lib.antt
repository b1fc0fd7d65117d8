-- ===== src/Lib.antt =====
-- The Go services of the infrastructure management platform: how the desired and the actual state of hosts
-- are collected, served and compared.
--
-- ParserSvc reads the desired state from Structurizr manifests at its start, and serves it. InventorySvc
-- asks its sources for the actual state of the hosts of its configuration, again and again, and serves
-- the last snapshot. DriftDetectorSvc fetches both states in cycles, compares them host by host, and asks
-- the reconciler to install what a host lacks, with a cooldown for each component and host.
--
-- Which file models what (paths from the root of the repository):
--   Common: what the services use of Go: strings in Common/Text, time in Common/Clock, maps in Common/Maps,
--     sort in Common/Order, strconv in Common/Numerals, int64 in Common/Int, encoding/json in Common/Json,
--     slashes of paths in Common/Paths. Common/Logger is the logger of the three services,
--     internal/logger/logger.go, whose errors end a start-up.
--   Drift/Domain: DriftDetectorSvc/internal/domain/model.go.
--   Drift/Cooldown: DriftDetectorSvc/internal/cooldown/store.go; CanSend is can_send, MarkSent mark_sent and
--     BuildKey build_key.
--   Drift/Detectors and Drift/Registry: DriftDetectorSvc/internal/detectors; the two Detect methods are
--     detect_cadvisor and detect_node_exporter.
--   Drift/Detection: DriftDetectorSvc/internal/service/detection/service.go. Hosts has indexActualHosts and
--     lookupActualHost; Cycle has runCycle as run_cycle, whose loops are check_hosts and check_components
--     and whose updates of the result are in Report; Service has the state of the service and RunCycle as
--     run; Service/Threads has the interleavings of its callers; Recorder is an
--     environment that logs the requests which the reconciler accepts.
--   Drift/Config: DriftDetectorSvc/internal/config/config.go; Load is load and Validate is validate.
--   Drift/Clients: DriftDetectorSvc/internal/clients; Retry has the loop that the three clients repeat, as
--     with_retries, and Parser, Inventory and Reconciler have FetchDesiredState, FetchActualState and
--     SendReconcile with their documents.
--   Drift/Http: DriftDetectorSvc/internal/transport/http; each handler is a function to an Answer.
--   Drift/App: Run of DriftDetectorSvc/internal/app/app.go and Start of its scheduler, as run_service.
--   Inventory/Domain, Inventory/Store and Inventory/Sync: InventorySvc/internal/domain/model.go,
--     InventorySvc/internal/store/memory/store.go, and NewService and Sync of
--     InventorySvc/internal/service/inventory/service.go; one host's turn of Sync is collect_host.
--   Inventory/Filter: ListHosts and FilterHostsByLabels of the same service.
--   Inventory/Bootstrap: Load and validate of InventorySvc/internal/bootstrap/selfprovisioning/loader.go.
--   Inventory/Config: InventorySvc/internal/config/config.go.
--   Inventory/Cadvisor: InventorySvc/internal/sources; the mapper is in Cadvisor, decodeContainersResponse and
--     FetchContainers in Client, CollectHost and PlaceholderSource in Source.
--   Inventory/Http: InventorySvc/internal/transport/http.
--   Inventory/App: Run of InventorySvc/internal/app/app.go as start_service, and Start of its scheduler as
--     run_scheduler.
--   Parser/Domain: ParserSvc/internal/domain/model.go.
--   Parser/Validator: ParserSvc/internal/validator/validator.go.
--   Parser/Store: ParserSvc/internal/store/memory/store.go.
--   Parser/Query: FilterHosts and ListHosts of ParserSvc/internal/service/desiredstate/service.go.
--   Parser/Manifest: ParserSvc/internal/parser/structurizr.go.
--   Parser/Values and Parser/Mapper: ParserSvc/internal/mapper/mapper.go; MapManifest is map_manifest and
--     walkDeploymentNode walk, with visit_node for a node without its children; Mapper/Fields
--     reads the properties.
--   Parser/Load: loadDesiredState of ParserSvc/internal/app/app.go as load_desired_state, and what Run puts in
--     the store as serve.
--   Parser/Config, Parser/Loader and Parser/Http: ParserSvc/internal/config, ParserSvc/internal/loader and
--     ParserSvc/internal/transport/http.
--   Parser/App: Run of ParserSvc/internal/app/app.go as start_service.
--   Platform: the services together. Desired and Actual join a service's handler to the detector's client;
--     Health says what the detector concludes from a host of the inventory; Start has the detector run beside
--     the other two services.
-- Below each of them, Laws and its like hold the theorems; the modules named Tests hold runs on concrete inputs.
--
-- What is a parameter. The clock, the clients of the detection service, the context and the sources of the
-- sync are an environment with a state of its own, which every call passes on. Reading a file,
-- json.Unmarshal, yaml.Unmarshal and float64 are arguments of the loading functions. Viper, with the defaults
-- that setDefaults gives it, is the function that reads a configuration, and zap's Build one that may fail;
-- url.Parse, os.Stat, os.ReadDir,
-- filepath.Abs and filepath.Join, strings.Replacer and %q are arguments too. A client's network gives for a
-- request its response, and for a wait whether the context ended. Of encoding/json the documents are modelled,
-- as trees, with the encoding and the decoding by the tags of a struct; the text of a tree and that of an instant
-- are written and read by arguments. The keys of a document are distinct and spelled as the tags, and its whole
-- numbers fit an int.
--
-- Bounds. Every recursion is structural, on a list, on a text or on a manifest's tree; only the printing of
-- numbers has fuel, the number itself and one, which is more than it has digits. A counter is a number
-- that does not wrap: it is at most the number of hosts, components or files. The time between
-- two instants saturates as in Go, and what is left of a cooldown wraps around in 64 bits; the sums of durations for
-- the timings of a cycle are not cut off. strings.ToLower and strings.EqualFold map
-- the ASCII letters only, and white space is Unicode's. A map is an association list; a range loop visits
-- it in one fixed order, and the code sorts what it takes out or puts it in a map again. sort.Slice is an
-- insertion sort.
--
-- The loop of a client has its attempts as fuel, which is the number that the configuration allows; a scheduler is
-- run for any number of ticks, one after the other, after which its context ends.
--
-- Not modelled: the log, the messages of the errors of the mapper and of the self-provisioning file (an
-- error is a value with what its message names), the YAML behind viper, the routers and the HTTP servers with
-- their shutdown, ResolvePath of the detection service, which nothing calls, the generated documentation of
-- the routes, and the reconciler, which is Python. A method that holds its lock from end to end is one step; the
-- callers of RunCycle interleave between these.
pub mod Common
pub mod Drift
pub mod Inventory
pub mod Parser
pub mod Platform
