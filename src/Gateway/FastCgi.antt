-- ===== src/Gateway/FastCgi.antt =====
-- internal/php/fastcgi/protocol.go: the client's side of the FastCGI protocol. A byte is a number
-- below 256, a byte slice or what a connection has yet to deliver is a list of them.
pub mod Length
pub mod Record
pub mod Params
pub mod Request
pub mod Response
pub mod Pool
