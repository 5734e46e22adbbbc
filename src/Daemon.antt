-- ===== src/Daemon.antt =====
-- The parts of the daemon around a request: internal/producer, internal/probe, internal/poller and
-- internal/daemon.
pub mod Producer
pub mod Pipeline
pub mod Probe
pub mod Poller
