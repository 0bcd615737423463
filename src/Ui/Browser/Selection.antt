-- ===== src/Ui/Browser/Selection.antt =====
-- ui/browser.rs: what a directory's entries are, and what can be selected.
use rxiu.Base.{
  ℕ, ◌≡◌, inl, inr, refl, Str, Bool, false, not, List, [], ◌∷◌, some, get_elem?, filter, map, arith,
  All, All-trivial, All-map, All-filter, All-append, All-imp, Option-cases,
}
use rxiu.Base.Sort.{sort_by, All-sort_by}
use rxiu.Error.{ok, Result-cases}
use rxiu.Ui.Keys.{KeyEvent}
use rxiu.Ui.Browser.{
  BrowserMode, select_file, select_directory, FilePath, parent, Entry, FileBrowser, select, Listing,
  is_hidden, to_entry, parent_entry, name_le, dir_entries, refresh_entries, new, move_up, move_down,
  adjust_scroll, change_dir, open_entry, go_up, confirm, press_char, handle_key, Event, run,
}
use rxiu.Ui.Browser.Window.{handle_key-keeps, new-keeps}
use rxiu.Ui.Browser.Choice.{
  IsNear, IsListing, IsChosen, move_up-IsListing, move_down-IsListing, entry-IsListed,
  confirm-chooses,
}

module _ (lowercase : Str → Str) where
  dir_entries-IsListing :
      (dir : FilePath) (names : List (Str × Bool))
      → All (IsNear dir) (dir_entries lowercase dir names)
  unfolding dir_entries
  dir_entries-IsListing dir names =
      let near = λ (e : Entry). e.path ≡ e.name ∷ dir in
      let kept = filter (λ (e : Str × Bool). not (is_hidden e.0)) names in
      let shown = map (to_entry dir) kept in
      let all = All-map (to_entry dir) near kept (All-trivial (λ e. refl) kept) in
      let sorted = λ (p : Entry → Bool).
        All-imp {P = near} {Q = IsNear dir} (λ e h. inl h)
          (sort_by (name_le lowercase) (filter p shown))
          (All-sort_by (name_le lowercase) near (filter p shown) (All-filter near p shown all)) in
      All-append (IsNear dir) (sort_by (name_le lowercase) (filter (λ e. e.is_dir) shown))
        (sort_by (name_le lowercase) (filter (λ e. not e.is_dir) shown)) (sorted (λ e. e.is_dir))
        (sorted (λ e. not e.is_dir))

  parent_entry-IsListing : (dir : FilePath) → All (IsNear dir) (parent_entry dir)
  unfolding parent_entry
  parent_entry-IsListing [] = tt
  parent_entry-IsListing (name ∷ dir) = (inr (refl, refl, refl), tt)

  refresh_entries-IsListing :
      (d : Listing) (b : FileBrowser) → IsListing (refresh_entries lowercase d b).0
  unfolding refresh_entries
  refresh_entries-IsListing d b = elim (Result-cases (d b.current_dir)) [
    | inl (names, e) ↦
        rw (e, refresh_entries)
          (All-append (IsNear b.current_dir) (parent_entry b.current_dir)
            (dir_entries lowercase b.current_dir names) (parent_entry-IsListing b.current_dir)
            (dir_entries-IsListing b.current_dir names))
    | inr (x, e) ↦ rw (e, refresh_entries) (parent_entry-IsListing b.current_dir)
  ]

  open_entry-chooses :
      (d : Listing) (b : FileBrowser) (mode : BrowserMode) {path : FilePath}
      → IsListing b
      → b.mode ≡ mode
      → (open_entry lowercase d b).1 ≡ select path
      → IsChosen mode b path × ((open_entry lowercase d b).0 ≡ b)
  unfolding open_entry
  open_entry-chooses d b select_file {path} near m e =
      elim (Option-cases (get_elem? b.entries b.selected)) [
        | inl nothing ↦ absurd (ground (arith, e, m, nothing))
        | inr (entry, at) ↦
            let file : entry.is_dir ≡ false = ground (arith, e, m, at) in
            (
              entry-IsListed b false near at (inl file) file (ground (arith, e, m, at, file)),
              ground (arith, at, file, m),
            )
      ]
  open_entry-chooses d b select_directory {path} near m e = absurd (ground (arith, e, m))

  handle_key-chooses :
      (d : Listing) (n : ℕ) (key : KeyEvent) (b : FileBrowser) (mode : BrowserMode)
      {path : FilePath}
      → IsListing b
      → b.mode ≡ mode
      → (handle_key lowercase d n key b).1 ≡ select path
      → IsChosen mode b path × ((handle_key lowercase d n key b).0 ≡ b)
  unfolding handle_key press_char
  handle_key-chooses d n key b mode {path} near m e = ground (
    arith,
    e,
    λ (h : confirm b ≡ select path). confirm-chooses b mode near m h,
    λ (h : (open_entry lowercase d b).1 ≡ select path). open_entry-chooses d b mode near m h,
  )

  refresh_entries-mode :
      (d : Listing) (b : FileBrowser) → (refresh_entries lowercase d b).0.mode ≡ b.mode
  unfolding refresh_entries
  refresh_entries-mode d b = ground arith

  change_dir-mode :
      (d : Listing) (dir : FilePath) (b : FileBrowser)
      → (change_dir lowercase d dir b).mode ≡ b.mode
  unfolding change_dir
  change_dir-mode d dir b =
      let b' = (refresh_entries lowercase d (record b { current_dir = dir })).0 in
      ground (
        arith,
        refresh_entries-mode d (record b { current_dir = dir }),
        refresh_entries-mode d (record b' { current_dir = b.current_dir }),
      )

  open_entry-mode : (d : Listing) (b : FileBrowser) → (open_entry lowercase d b).0.mode ≡ b.mode
  unfolding open_entry
  open_entry-mode d b = elim (Option-cases (get_elem? b.entries b.selected)) [
    | inl nothing ↦ ground arith
    | inr (entry, e) ↦ ground (arith, change_dir-mode d entry.path b)
  ]

  go_up-mode : (d : Listing) (b : FileBrowser) → (go_up lowercase d b).mode ≡ b.mode
  unfolding go_up
  go_up-mode d b = elim (Option-cases (parent b.current_dir)) [
    | inl top ↦ ground arith
    | inr (dir, e) ↦ ground (arith, change_dir-mode d dir b)
  ]

  handle_key-mode :
      (d : Listing) (n : ℕ) (key : KeyEvent) (b : FileBrowser)
      → (handle_key lowercase d n key b).0.mode ≡ b.mode
  unfolding handle_key press_char move_up move_down adjust_scroll
  handle_key-mode d n key b = ground (arith, go_up-mode d b, open_entry-mode d b)

  run-chooses :
      (events : List (Event lowercase)) (b : FileBrowser) (mode : BrowserMode) {path : FilePath}
      → IsListing b
      → b.mode ≡ mode
      → (run lowercase events b).1 ≡ some (ok path)
      → IsChosen mode (run lowercase events b).0 path
  unfolding run
  run-chooses [] b mode near m e = cc
  run-chooses ((d, n, key) ∷ events) b mode {path} near m e =
      let next = handle_key lowercase d n key b in
      let near' =
        handle_key-keeps lowercase n IsListing refresh_entries-IsListing (move_up-IsListing n)
          (move_down-IsListing n) d key b near in
      ground (
        arith,
        e,
        handle_key-mode d n key b,
        λ (h : next.1 ≡ select path). handle_key-chooses d n key b mode near m h,
        near',
        λ (h : (run lowercase events next.0).1 ≡ some (ok path)) (m' : next.0.mode ≡ mode).
            run-chooses events next.0 mode near' m' h,
      )

  new-mode :
      (d : Listing) (dir : FilePath) (mode : BrowserMode) {b : FileBrowser}
      → new lowercase d dir mode ≡ ok b
      → b.mode ≡ mode
  unfolding new
  new-mode d dir mode {b} e =
      let start : FileBrowser = record {
        mode = mode;
        current_dir = dir;
        entries = [];
        selected = 0;
        scroll_offset = 0;
      } in
      ground (arith, e, refresh_entries-mode d start)

  -- Where the browser ends with a path, it stays on what it showed at that key. To select a file, the path is that of a
  -- listed child of the current directory that is no directory; to select a directory, it is the current directory
  -- or a listed child that is a directory, and so never the parent.
  pub run-new-chooses :
      (d : Listing) (dir : FilePath) (mode : BrowserMode) {b : FileBrowser}
      (events : List (Event lowercase)) {path : FilePath}
      → new lowercase d dir mode ≡ ok b
      → (run lowercase events b).1 ≡ some (ok path)
      → IsChosen mode (run lowercase events b).0 path
  run-new-chooses d dir mode {b} events {path} e chosen =
      run-chooses events b mode
        (new-keeps lowercase IsListing refresh_entries-IsListing d dir mode e)
        (new-mode d dir mode e) chosen
