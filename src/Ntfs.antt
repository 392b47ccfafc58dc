-- ===== src/Ntfs.antt =====
-- The raw NTFS parsers, crates/batuta-ntfs/src: bytes and errors, data runs, the boot sector, the
-- fixups and the header of a file record, its attributes, and the records of the change journal.
pub mod Bytes
pub mod RunList
pub mod Boot
pub mod Record
pub mod Attributes
pub mod Usn
