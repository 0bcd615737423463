-- ===== src/Ui/Keys.antt =====
-- The parts of `crossterm::event` that the program reads: a key, whether Control is held, and whether the event
-- is a press.
use rxiu.Base.{ℕ, Bool}

pub data KeyCode : Type 0 where
  esc enter backspace delete : KeyCode
  up down left right home end : KeyCode
  char : ℕ → KeyCode
  other : KeyCode

pub record KeyEvent : Type 0 where
  pub code : KeyCode
  pub control : Bool
  pub press : Bool
