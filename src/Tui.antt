-- ===== src/Tui.antt =====
-- src/tui and src/cli: the terminal interface.
pub mod Text
pub mod App
pub mod Commands
pub mod Editor
pub mod Screen
pub mod Remote
pub mod RsCommands
pub mod Prompts
pub mod Files
pub mod Actions
pub mod Arms
pub mod Input
pub mod Modes
pub mod Asked
pub mod Careful
pub mod MainLoop
pub mod Kept
pub mod Answered
pub mod Deletion
pub mod Failures
pub mod Zipper
pub mod Examples
