-- ===== src/Ui.antt =====
-- ui/: the choice of a file or a directory in the terminal.
pub mod Keys
pub mod Browser
mod Examples
