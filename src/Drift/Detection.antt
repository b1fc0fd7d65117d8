-- ===== src/Drift/Detection.antt =====
-- DriftDetectorSvc/internal/service/detection/service.go: the detection cycle and the service around
-- it. `Hosts` finds the actual host of a desired one, `Report` and
-- `Cycle` are `runCycle`, `Service` the rest; `Recorder` logs what they ask of the reconciler.
pub mod Hosts
pub mod Report
pub mod Recorder
pub mod Cycle
pub mod Service
