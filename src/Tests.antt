-- ===== src/Tests.antt =====
-- The theorems at concrete inputs, and runs of the model.
mod Routing
mod Numerals
mod Documents
mod Drawings
mod Network
mod Requests
mod Catalogues
mod Maps
mod Files
