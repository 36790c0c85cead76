-- ===== src/Tests.antt =====
-- Runs of the development at concrete inputs.
mod Components
mod Stores
mod Vectors
mod Requests
mod Pipeline
mod Workloads
mod Wires
mod Meters
mod Benches
mod Flows
mod Embedding
mod Demos
