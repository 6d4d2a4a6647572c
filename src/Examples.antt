-- ===== src/Examples.antt =====
-- Runs of the model on small inputs.
mod Bitmaps
mod Buffered
mod Calls
mod Clusters
mod Contexts
mod Blocks
mod Configs
mod Chunked
mod Messages
mod Protocols
mod Rounds
mod Summed
mod Created
mod Launched
mod Delivered
mod Stored
mod Workers
