-- ===== src/Install.antt =====
-- jonchki/jonchkihere.py, `__check_jonchki_version` and `install`: an installed version is searched,
-- or unpacked from an archive that lies in a folder or is downloaded.
pub mod Version
pub mod System
pub mod Format
pub mod Check
pub mod Steps
pub mod Names
pub mod Checked
pub mod Laws
mod Tests
