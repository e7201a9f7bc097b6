-- ===== src/Integration/Examples.antt =====
-- custom_components/urmet on a small house: a frame of the stream, what the client and the coordinator
-- make of it, and the runs of the entities.
mod Frames
mod Entities
mod Mirroring
