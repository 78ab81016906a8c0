-- ===== src/Errx.antt =====
-- errx/: business error codes, the error values with their sharing, and the API response.
pub mod Codes
pub mod Errors
mod Examples
