-- ===== src/Security.antt =====
-- The security handlers and crypt filters of `pdf/core/security`, and `PdfCrypt` of `pdf/core/crypt.go`.
pub mod Result
pub mod Primitives
pub mod Dict
pub mod HandlerR4
pub mod Hash
pub mod Ecb
pub mod CryptFilter
pub mod Lookup
pub mod EncryptDict
pub mod Document
pub mod PdfCrypt
pub mod HandlerR6
pub mod Tests
