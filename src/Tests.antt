-- ===== src/Tests.antt =====
-- A small deployment with one provider, and the theorems at concrete inputs.
mod Shop
mod Services
mod Parts
mod Edge
mod Doors
mod Network
mod Panels
mod Start
