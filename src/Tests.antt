-- ===== src/Tests.antt =====
-- Runs of the definitions on small inputs, by the components.
mod Checks
mod Lists
mod Files
mod Samples
mod Threads
mod Power
mod Messages
mod Objects
mod Sessions
mod Others
mod Devices
mod Handlers
mod Outside
mod Counts
