-- ===== src/Env.antt =====
-- regression/common/ptb_framework/src/env_flasher.py, class EnvFlasher.
pub mod Masks
pub mod Ports
pub mod Identify
pub mod Installation
mod Tests
