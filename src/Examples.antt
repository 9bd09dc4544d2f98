-- ===== src/Examples.antt =====
-- Concrete inputs at which the theorems hold, and runs of the definitions.
mod Transitions
mod Output
mod Live
mod Viewers
mod Fleet
mod Relay
mod Broker
mod Sockets
mod Streams
mod Pushes
mod Accounts
mod Pairings
mod Launches
