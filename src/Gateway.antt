-- ===== src/Gateway.antt =====
-- backend/src/modules/ai/gateway/ai-gateway.service.ts.
pub mod Providers
pub mod Embeddings
mod Examples
