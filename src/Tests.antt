-- ===== src/Tests.antt =====
-- Runs on concrete inputs, and the main theorems at inputs that meet their hypotheses.
mod Data
mod Chunk
mod Files
mod Reads
mod Pages
mod Saves
mod Cache
mod Check
mod Convert
mod Inspect
