-- ===== src/Wfp.antt =====
-- regression/WFP, WFP_OS, WFP_MULTIFLASH and WFP_MULTITARGET: the tests of the flasher packages.
pub mod Commands
pub mod Plain
pub mod Sizes
pub mod Placed
pub mod Runs
pub mod Cover
pub mod Package
pub mod Verify
pub mod Inputs
pub mod MultiFlash
pub mod MultiTarget
pub mod Returns
mod Tests
