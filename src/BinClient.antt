-- ===== src/BinClient.antt =====
-- network/HttpApi/BinClient: the client of the binary API, a module for each class.
pub mod Parser
pub mod Connection
pub mod Client
mod Tests
