-- ===== src/Network.antt =====
-- src/network: the schemes of the URLs, and the handler that runs libcurl.
pub mod Scheme
pub mod Http
