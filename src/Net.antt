-- ===== src/Net.antt =====
-- sem10-net-sockets/snippets: what the servers share, the servers and the client over TCP, and the
-- server over UDP.
pub mod Client
pub mod Datagrams
pub mod UdpServer
pub mod UdpClient
pub mod UdpEcho
pub mod Socket
pub mod Message
pub mod Session
pub mod TcpServer
pub mod ForkServer
