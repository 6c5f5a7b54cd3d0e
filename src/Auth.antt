-- ===== src/Auth.antt =====
-- The crate auth: tokens and the endpoints that hand them out.
pub mod Token
pub mod Store
pub mod Endpoints
pub mod Registration
pub mod Extractor
pub mod KeyDocument
