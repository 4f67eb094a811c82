-- ===== src/Version.antt =====
-- The version comparators of the six formats, formats/*/version.go.
pub mod Numeric
pub mod Deb
pub mod Rpm
pub mod Apk
pub mod Pypi
pub mod Raw
pub mod Helm
