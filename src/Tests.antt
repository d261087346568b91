-- ===== src/Tests.antt =====
-- Runs of the components at concrete inputs.
mod Tokens
mod Grants
mod Stripes
mod Requests
mod Blocks
mod Coherence
mod Io
