-- ===== src/Tests.antt =====
-- The theorems at concrete inputs, after the samples of the repository's own tests.
mod Samples
mod Numbers
mod Bursts
mod Beacons
mod Models
mod Services
mod Verdicts
mod Rules
mod Frames
mod Policies
mod Clocks
mod Sequences
mod Bundles
mod Agents
