-- ===== src/Middleware.antt =====
-- middleware/: the middleware of gin and the interceptors of gRPC.
pub mod Capture
pub mod Observability
pub mod Paths
pub mod Recovery
mod Examples
pub mod Tracing
pub mod Unary
