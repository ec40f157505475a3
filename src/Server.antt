-- ===== src/Server.antt =====
-- Package server (server/server.go): the UDP receiver of NACK requests.
pub mod Wire
pub mod Calls
pub mod Handler
pub mod Replies
pub mod Honest
pub mod Serves
pub mod OneHop
pub mod Refusals
pub mod Ignored
