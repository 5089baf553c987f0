-- ===== src/Url.antt =====
-- The URL functions of src/url_tools.cpp.
pub mod Chars
pub mod Parse
pub mod Escape
pub mod Site
pub mod Section
pub mod Dots
pub mod Normalize
pub mod Sign
