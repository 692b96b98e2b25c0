-- ===== src/Tests.antt =====
-- The theorems at concrete inputs.
mod Wire
mod Data
mod Response
mod Client
mod Service
mod World
mod Names
mod Exchange
mod Race
