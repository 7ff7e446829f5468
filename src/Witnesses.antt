-- ===== src/Witnesses.antt =====
-- Runs of the code of src/crawllmer on small inputs, at which the theorems apply.
pub mod Scanning
pub mod Storing
pub mod Pacing
pub mod Running
pub mod Finding
pub mod Staging
pub mod Gauging
pub mod Serving
pub mod Showing
