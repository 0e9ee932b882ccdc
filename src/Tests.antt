-- ===== src/Tests.antt =====
-- The theorems on concrete inputs, by the part of the program.
pub mod Client
pub mod Links
pub mod Server
pub mod FileSystem
pub mod Together
pub mod Session
pub mod Tools
pub mod Interruption
pub mod WholeSession
