-- ===== src/Net.antt =====
-- The network layer, net/.
pub mod Endian
pub mod Buffer
pub mod Channel
pub mod TcpConnection
pub mod EventLoop
pub mod TimerQueue
pub mod Connector
pub mod PollPoller
pub mod EventLoopThreadPool
pub mod Acceptor
pub mod TcpServer
pub mod TcpClient
mod Tests
