-- ===== src/Tests.antt =====
-- Concrete inputs on which the theorems are applied.
mod Setting
mod Rows
mod Ranking
mod Polling
mod Onboarding
mod Decks
mod Network
mod Classifier
mod Logins
mod Running
mod Ticks
mod Passes
mod Provider
