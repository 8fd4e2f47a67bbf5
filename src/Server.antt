-- ===== src/Server.antt =====
-- internal/server: the commands of the management socket on the daemons, the programs and the features.
-- A reply is data: the numbers, names and records that the source formats, without the text.
pub mod Replies
pub mod Handlers
pub mod Dispatch
pub mod Connection
pub mod Serving
pub mod Format
mod Tests
