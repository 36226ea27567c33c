-- ===== src/Tests.antt =====
-- Concrete data: theorems at inputs that meet their hypotheses, and runs of the definitions.
mod Toy
mod Regions
mod Ciphers
mod Streams
mod Metadata
mod Keys
mod Passwords
mod Volumes
mod Unlock
mod Plain
mod Search
mod Sessions
mod Refusals
mod Detection
