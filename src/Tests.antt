-- ===== src/Tests.antt =====
-- Runs of the model at concrete inputs: small graphs and tasks (Tests/Graphs), a flow of two tasks
-- with its schedule (Tests/Flows) a whole run of it (Tests/Rounds, Tests/Whole), two tasks that share a run (Tests/Shared), logs, events and a session (Tests/Logs), a flow with a placeholder (Tests/Described), the stores, caches,
-- middlewares and overrides (Tests/Services), and the connectors' clients (Tests/Drivers and
-- Tests/Files).
mod Graphs
mod Flows
mod Described
mod Rounds
mod Whole
mod Shared
mod Logs
mod Services
mod Drivers
mod Files
