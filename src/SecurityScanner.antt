-- ===== src/SecurityScanner.antt =====
-- security_scanner: the worker that scans uploaded files.
pub mod ClamAv
pub mod Frame
pub mod Worker
pub mod Loop
