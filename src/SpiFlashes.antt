-- ===== src/SpiFlashes.antt =====
-- site_scons/spi_flashes.py, `spiflashes_action`: the table of the SPI flashes from their XML
-- descriptions.
pub mod Values
pub mod Entries
pub mod Commands
pub mod Lines
pub mod Table
pub mod Checks
pub mod Sizes
pub mod Laws
pub mod Loop
pub mod Layout
mod Tests
