-- ===== src/Transport.antt =====
-- The data plane: transports/tcp, transports/quic and transports/rdma.
pub mod Tcp
pub mod Quic
pub mod Rdma
