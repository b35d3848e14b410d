-- ===== src/Tests.antt =====
-- Runs of the modelled code on concrete inputs.
mod Data
mod Hubs
mod Warming
mod Upstream
mod Accounts
mod Responses
mod Playback
mod Routes
mod Identity
mod Jobs
mod Storage
mod Disk
mod Keys
mod LibraryCache
