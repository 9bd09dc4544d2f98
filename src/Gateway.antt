-- ===== src/Gateway.antt =====
-- The sockets of an agent and of a viewer (apps/server/src/routes/websockets.ts). Of the agent's:
-- `processMessage`, on a message that the schema has accepted, and the handler of `close`. What a
-- handler does besides its writes to the table of jobs is a list of acts. The calls of the hub and
-- of the device table are taken to return, and their answers are arguments. The timer for a missing
-- `agent.hello` is left out, and so are the platform, the architecture and the version that a
-- greeting writes to the device.
pub mod Acts
pub mod Queries
pub mod Agent
pub mod Spares
pub mod Confinement
pub mod Lawful
pub mod Closing
pub mod Losses
pub mod Viewing
