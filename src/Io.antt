-- ===== src/Io.antt =====
-- sem03-lowlevel-io-fs: input and output through descriptors.
pub mod CopyFile
pub mod ReadRetry
pub mod Reprinter
pub mod WriteRetry
pub mod BufferedWriter
