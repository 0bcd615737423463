-- ===== src/Ui/Browser.antt =====
-- ui/browser.rs: the file browser. A path is its components, the innermost first, and the root has none. What
-- `read_dir` gives of a directory, with `is_dir` of each entry, is a parameter of each key, since the disk may
-- change between two keys; a name is valid UTF-8. `lowercase` is `str::to_lowercase`.
pub mod Window
pub mod Order
pub mod Choice
pub mod Selection
use rxiu.Base.{
  ℕ, suc, ◌+◌, ◌-◌, min, Str, str_eq, codes, Bool, true, false, not, List, [], ◌∷◌, ◌++◌, Option,
  none, some, if◌then◌else◌, length, get_elem?, filter, map, take, drop, ltb, leb, ◌==◌, ◌&&◌,
  bytes_le,
}
use rxiu.Base.Sort.{sort_by}
use rxiu.Error.{AppError, Result, ok, err, cancelled, ◌>>=◌}
use rxiu.Ui.Keys.{KeyCode, KeyEvent}

pub data BrowserMode : Type 0 where
  select_file select_directory : BrowserMode

abbrev pub FilePath : Type 0
FilePath = List Str

-- `Path::parent`
abbrev pub parent : FilePath → Option FilePath
parent [] = none
parent (name ∷ dir) = some dir

pub record Entry : Type 0 where
  pub name : Str
  pub path : FilePath
  pub is_dir : Bool

pub record FileBrowser : Type 0 where
  pub mode : BrowserMode
  pub current_dir : FilePath
  pub entries : List Entry
  pub selected : ℕ
  pub scroll_offset : ℕ

pub data BrowserAction : Type 0 where
  continue : BrowserAction
  select : FilePath → BrowserAction
  cancel : BrowserAction

-- The names in a directory and whether each is a directory, or the error of `read_dir`.
abbrev pub Listing : Type 0
Listing = FilePath → Result (List (Str × Bool))

unfoldable pub is_hidden : Str → Bool
is_hidden [] = false
is_hidden (c ∷ cs) = c == b'.'

abbrev pub to_entry : FilePath → Str × Bool → Entry
to_entry dir e = record { name = e.0; path = e.0 ∷ dir; is_dir = e.1 }

unfoldable pub parent_entry : FilePath → List Entry
parent_entry [] = []
parent_entry (name ∷ dir) = record { name = codes ".."; path = dir; is_dir = true } ∷ []

-- `height` is the number of rows of the terminal, or 24.
unfoldable pub adjust_scroll : ℕ → FileBrowser → FileBrowser
adjust_scroll height b =
    let visible_rows = height - 5 in
    if ltb b.selected b.scroll_offset
    then record b { scroll_offset = b.selected }
    else if leb (b.scroll_offset + visible_rows) b.selected
    then record b { scroll_offset = b.selected - visible_rows + 1 }
    else b

unfoldable pub move_up : ℕ → FileBrowser → FileBrowser
unfolding adjust_scroll
move_up height b =
    if ltb 0 b.selected then adjust_scroll height (record b { selected = b.selected - 1 }) else b

unfoldable pub move_down : ℕ → FileBrowser → FileBrowser
unfolding adjust_scroll
move_down height b =
    if ltb b.selected (length b.entries - 1)
    then adjust_scroll height (record b { selected = b.selected + 1 })
    else b

-- What the key `y` selects.
unfoldable pub confirm : FileBrowser → BrowserAction
confirm b = elim b.mode [
  | select_file ↦ elim (get_elem? b.entries b.selected) [
    | none ↦ continue
    | some entry ↦ if entry.is_dir then continue else select entry.path
  ]
  | select_directory ↦ elim (get_elem? b.entries b.selected) [
    | none ↦ select b.current_dir
    | some entry ↦
        if entry.is_dir && not (str_eq entry.name (codes ".."))
        then select entry.path
        else select b.current_dir
  ]
]

module _ (lowercase : Str → Str) where
  abbrev pub name_le : Entry → Entry → Bool
  name_le a b = bytes_le (lowercase a.name) (lowercase b.name)

  -- The entries of a directory: directories first, then files, each by name.
  unfoldable pub dir_entries : FilePath → List (Str × Bool) → List Entry
  unfolding sort_by is_hidden
  dir_entries dir names =
      let shown = map (to_entry dir) (filter (λ e. not (is_hidden e.0)) names) in
      sort_by name_le (filter (λ e. e.is_dir) shown)
      ++ sort_by name_le (filter (λ e. not e.is_dir) shown)

  -- Where the directory cannot be read, the parent's entry stands alone.
  unfoldable pub refresh_entries : Listing → FileBrowser → FileBrowser × Result (Unit {0})
  unfolding dir_entries parent_entry
  refresh_entries read_dir b =
      let up = parent_entry b.current_dir in
      let cleared = record b { entries = up; selected = 0; scroll_offset = 0 } in
      elim (read_dir b.current_dir) [
        | err e ↦ (cleared, err e)
        | ok names ↦ (record cleared { entries = up ++ dir_entries b.current_dir names }, ok tt)
      ]

  unfoldable pub new : Listing → FilePath → BrowserMode → Result FileBrowser
  unfolding refresh_entries
  new read_dir start_dir mode =
      let b : FileBrowser = record {
        mode = mode;
        current_dir = start_dir;
        entries = [];
        selected = 0;
        scroll_offset = 0;
      } in
      let (b', result) = refresh_entries read_dir b in result >>= λ _. ok b'

  -- To another directory, and back where it cannot be read.
  unfoldable pub change_dir : Listing → FilePath → FileBrowser → FileBrowser
  unfolding refresh_entries
  change_dir read_dir dir b =
      let (b', result) = refresh_entries read_dir (record b { current_dir = dir }) in
      elim result [
        | ok _ ↦ b'
        | err _ ↦ (refresh_entries read_dir (record b' { current_dir = b.current_dir })).0
      ]

  unfoldable pub open_entry : Listing → FileBrowser → FileBrowser × BrowserAction
  unfolding change_dir
  open_entry read_dir b = elim (get_elem? b.entries b.selected) [
    | none ↦ (b, continue)
    | some entry ↦
        if entry.is_dir
        then (change_dir read_dir entry.path b, continue)
        else elim b.mode [ select_file ↦ (b, select entry.path) | select_directory ↦ (b, continue) ]
  ]

  unfoldable pub go_up : Listing → FileBrowser → FileBrowser
  unfolding change_dir
  go_up read_dir b = elim (parent b.current_dir) [ none ↦ b | some dir ↦ change_dir read_dir dir b ]

  unfoldable pub press_char : Listing → ℕ → ℕ → Bool → FileBrowser → FileBrowser × BrowserAction
  unfolding open_entry go_up confirm move_up move_down
  press_char read_dir height c control b =
      if c == b'q'
      then (b, cancel)
      else if (c == b'c') && control
      then (b, cancel)
      else if c == b'k'
      then (move_up height b, continue)
      else if c == b'j'
      then (move_down height b, continue)
      else if c == b'l'
      then open_entry read_dir b
      else if c == b'h'
      then (go_up read_dir b, continue)
      else if c == b'y'
      then (b, confirm b)
      else (b, continue)

  unfoldable pub handle_key : Listing → ℕ → KeyEvent → FileBrowser → FileBrowser × BrowserAction
  unfolding press_char open_entry go_up move_up move_down
  handle_key read_dir height key b = elim key.code [
    | KeyCode.esc ↦ (b, cancel)
    | KeyCode.up ↦ (move_up height b, continue)
    | KeyCode.down ↦ (move_down height b, continue)
    | KeyCode.enter ↦ open_entry read_dir b
    | KeyCode.backspace ↦ (go_up read_dir b, continue)
    | KeyCode.char c ↦ press_char read_dir height c key.control b
    | KeyCode.delete ↦ (b, continue)
    | KeyCode.left ↦ (b, continue)
    | KeyCode.right ↦ (b, continue)
    | KeyCode.home ↦ (b, continue)
    | KeyCode.end ↦ (b, continue)
    | KeyCode.other ↦ (b, continue)
  ]

  -- An event of the loop: what is on disk, the terminal's height and the key.
  abbrev pub Event : Type 0
  Event = Listing × ℕ × KeyEvent

  -- The loop of `run`, up to the end of the events: the browser, and the result where there is one.
  unfoldable pub run : List Event → FileBrowser → FileBrowser × Option (Result FilePath)
  unfolding handle_key
  run [] b = (b, none)
  run (e ∷ events) b =
      let (b', action) = handle_key e.0 e.1 e.2 b in
      let rest = run events b' in
      elim action [
        | continue ↦ rest
        | select path ↦ (b', some (ok path))
        | cancel ↦ (b', some (err cancelled))
      ]

  unfoldable pub handle_key_tui :
      Listing → ℕ → KeyEvent → FileBrowser → FileBrowser × Result (Option FilePath)
  unfolding handle_key
  handle_key_tui read_dir height key b =
      let (b', action) = handle_key read_dir height key b in
      elim action [
        | continue ↦ (b', ok none)
        | select path ↦ (b', ok (some path))
        | cancel ↦ (b', err cancelled)
      ]

-- The entries that `render` prints, from its start to its end.
unfoldable pub shown_entries : ℕ → FileBrowser → List Entry
shown_entries height b =
    let start = b.scroll_offset in
    let end = min (start + (height - 6)) (length b.entries) in
    take (end - start) (drop start b.entries)
