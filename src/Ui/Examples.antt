-- ===== src/Ui/Examples.antt =====
-- The file browser on a small disk.
use rxiu.Base.{
  ◌≡◌, ◌⊎◌, ◌-◌, refl, Str, codes, Bool, true, false, not, List, [], ◌∷◌, ◌++◌, none, some, arith,
  get_elem?, filter, map, All, bytes_cmp,
}
use rxiu.Base.Sort.{IsSorted}
use mathlib.Core.List.{Perm}
use rxiu.Error.{ok, err, cancelled}
use rxiu.Ui.Keys.{KeyCode}
use rxiu.Ui.Browser.{
  select_file, Entry, FileBrowser, Listing, Event, is_hidden, to_entry, parent_entry, name_le,
  refresh_entries, new, run, shown_entries,
}
use rxiu.Ui.Browser.Window.{run-new-shown}
use rxiu.Ui.Browser.Order.{refresh_entries-lists}
use rxiu.Ui.Browser.Selection.{run-new-chooses}
use rxiu.Ui.Browser.Choice.{IsChosen}

abbrev names : List (Str × Bool)
names = (codes "b", false) ∷ (codes ".x", false) ∷ (codes "a", false) ∷ (codes "d", true) ∷ []

-- The directory `/h` has an entry `d` that cannot be read.
abbrev disk : Listing
disk [] = ok ((codes "h", true) ∷ [])
disk (x ∷ []) = ok names
disk (x ∷ y ∷ path) = err cancelled

abbrev lower : Str → Str
lower s = s

abbrev key : KeyCode → Event lower
key code = (disk, 24, record { code = code; control = false; press = true })

-- Down to `d`, into it in vain, down to `a`, and Enter.
abbrev events : List (Event lower)
events =
    key KeyCode.down
    ∷ key KeyCode.enter
    ∷ key KeyCode.down
    ∷ key (KeyCode.char b'j')
    ∷ key KeyCode.enter
    ∷ []

abbrev start : FileBrowser
start = record {
  mode = select_file;
  current_dir = codes "h" ∷ [];
  entries =
      record { name = codes ".."; path = []; is_dir = true }
      ∷ record { name = codes "d"; path = codes "d" ∷ codes "h" ∷ []; is_dir = true }
      ∷ record { name = codes "a"; path = codes "a" ∷ codes "h" ∷ []; is_dir = false }
      ∷ record { name = codes "b"; path = codes "b" ∷ codes "h" ∷ []; is_dir = false }
      ∷ [];
  selected = 0;
  scroll_offset = 0;
}

new-start : new lower disk (codes "h" ∷ []) select_file ≡ ok start
unfolding new bytes_cmp
new-start = refl

chosen : (run lower events start).1 ≡ some (ok (codes "a" ∷ codes "h" ∷ []))
unfolding run bytes_cmp
chosen = refl

run-new-chooses_example :
    IsChosen select_file (run lower events start).0 (codes "a" ∷ codes "h" ∷ [])
run-new-chooses_example =
    run-new-chooses lower disk (codes "h" ∷ []) select_file events new-start chosen

run-new-shown_example :
    let c = (run lower events start).0 in
    let row = c.selected - c.scroll_offset in
    (get_elem? (shown_entries 24 c) row ≡ get_elem? c.entries c.selected)
    ⊎ ((row ≡ 24 - 6) × (get_elem? (shown_entries 24 c) row ≡ none))
run-new-shown_example =
    run-new-shown lower disk (codes "h" ∷ []) select_file 24 events new-start (omega arith)
      (omega arith)

refresh_entries-lists_example :
    (dirs : List Entry) × (files : List Entry) × ((refresh_entries lower disk start).0.entries
      ≡ parent_entry (codes "h" ∷ []) ++ (dirs ++ files))
    × All (λ e. e.is_dir ≡ true) dirs
    × All (λ e. e.is_dir ≡ false) files
    × IsSorted (name_le lower) dirs
    × IsSorted (name_le lower) files
    × Perm
        (dirs ++ files)
        (map (to_entry (codes "h" ∷ [])) (filter (λ e. not (is_hidden e.0)) names))
refresh_entries-lists_example = refresh_entries-lists lower disk start refl
