-- ===== src/Ui/Browser/Window.antt =====
-- ui/browser.rs: the selection and the rows that are shown.
use rxiu.Base.{
  ℕ, ◌+◌, ◌-◌, ◌<◌, ◌≤◌, ◌≡◌, ◌⊎◌, ◌∙◌, inl, inr, ap, Str, List, [], ◌∷◌, none, if◌then◌else◌,
  length, get_elem?, drop, ltb, min, arith, get_elem?-take, get_elem?-drop, get_elem?-none, All,
  Bool-cases, Option-cases, All-trivial,
}
use rxiu.Error.{ok, Result-cases}
use rxiu.Ui.Keys.{KeyEvent}
use rxiu.Ui.Browser.{
  BrowserMode, FilePath, parent, FileBrowser, Listing, refresh_entries, new, adjust_scroll, move_up,
  move_down, change_dir, open_entry, go_up, press_char, handle_key, Event, run, shown_entries,
}

-- The selection is an entry, if there is one, and the first row shown is no further than one behind the last.
pub record IsSound (b : FileBrowser) : Type 0 where
  pub in_range : b.selected ≤ length b.entries - 1
  pub in_list : b.scroll_offset ≤ length b.entries

-- The selection is among the rows that `adjust_scroll` counts.
pub record IsInView (height : ℕ) (b : FileBrowser) : Type 0 where
  pub below_top : b.scroll_offset ≤ b.selected
  pub above_bottom : b.selected < b.scroll_offset + (height - 5)

move_up-IsSound : (height : ℕ) (b : FileBrowser) → IsSound b → IsSound (move_up height b)
unfolding move_up adjust_scroll
move_up-IsSound height b h = ground arith

move_down-IsSound : (height : ℕ) (b : FileBrowser) → IsSound b → IsSound (move_down height b)
unfolding move_down adjust_scroll
move_down-IsSound height b h = ground arith

move_up-IsInView :
    (height : ℕ)
    → 5 < height
    → (b : FileBrowser) → IsInView height b
    → IsInView height (move_up height b)
unfolding move_up adjust_scroll
move_up-IsInView height rows b h = ground arith

move_down-IsInView :
    (height : ℕ)
    → 5 < height
    → (b : FileBrowser) → IsInView height b
    → IsInView height (move_down height b)
unfolding move_down adjust_scroll
move_down-IsInView height rows b h = ground arith

-- Row `i` of what is shown.
shown_entries-row :
    (height i : ℕ) (b : FileBrowser)
    → b.scroll_offset ≤ length b.entries
    → get_elem? (shown_entries height b) i
      ≡ (if ltb i (height - 6) then get_elem? b.entries (b.scroll_offset + i) else none)
unfolding shown_entries
shown_entries-row height i b h =
    let start = b.scroll_offset in
    let end = min (start + (height - 6)) (length b.entries) in
    get_elem?-take (end - start) i (drop start b.entries)
    ∙ ground (arith, get_elem?-drop start i b.entries, get_elem?-none b.entries (start + i))

-- In a terminal of at least 7 rows, moving down from the last row that is shown, where an entry follows, selects an entry that is
-- not shown.
move_down-hides :
    (height : ℕ) (b : FileBrowser)
    → 6 < height
    → b.selected + 1 ≡ b.scroll_offset + (height - 6)
    → b.selected + 1 < length b.entries
    → let c = move_down height b in
      (c.selected ≡ b.selected + 1)
      × (get_elem? (shown_entries height c) (c.selected - c.scroll_offset) ≡ none)
unfolding move_down adjust_scroll
move_down-hides height b rows last more =
    let c = record b { selected = b.selected + 1 } in
    let row = b.selected + 1 - b.scroll_offset in ground (arith, shown_entries-row height row c)

module _ (lowercase : Str → Str) where
  -- What refreshing, moving up and moving down keep is kept by every key.
  module _ (height : ℕ) (P : FileBrowser → Type 0)
      (fresh : (d : Listing) (b : FileBrowser) → P (refresh_entries lowercase d b).0)
      (up : (b : FileBrowser) → P b → P (move_up height b))
      (down : (b : FileBrowser) → P b → P (move_down height b)) where
    change_dir-keeps :
        (d : Listing) (dir : FilePath) (b : FileBrowser) → P (change_dir lowercase d dir b)
    unfolding change_dir
    change_dir-keeps d dir b =
        let b' = (refresh_entries lowercase d (record b { current_dir = dir })).0 in
        elim (Result-cases (refresh_entries lowercase d (record b { current_dir = dir })).1) [
          | inl (a, e) ↦ rw (e, change_dir) (fresh d (record b { current_dir = dir }))
          | inr (x, e) ↦ rw (e, change_dir) (fresh d (record b' { current_dir = b.current_dir }))
        ]

    go_up-keeps : (d : Listing) (b : FileBrowser) → P b → P (go_up lowercase d b)
    unfolding go_up
    go_up-keeps d b h = elim (Option-cases (parent b.current_dir)) [
      | inl top ↦ rw (top, go_up) h
      | inr (dir, e) ↦ rw (e, go_up) (change_dir-keeps d dir b)
    ]

    open_entry-keeps : (d : Listing) (b : FileBrowser) → P b → P (open_entry lowercase d b).0
    unfolding open_entry
    open_entry-keeps d b h = elim (Option-cases (get_elem? b.entries b.selected)) [
      | inl nothing ↦ ground arith
      | inr (entry, e) ↦ ground (arith, change_dir-keeps d entry.path b)
    ]

    pub handle_key-keeps :
        (d : Listing) (key : KeyEvent) (b : FileBrowser)
        → P b
        → P (handle_key lowercase d height key b).0
    unfolding handle_key press_char
    handle_key-keeps d key b h =
        ground (arith, up b h, down b h, go_up-keeps d b h, open_entry-keeps d b h)

  -- What a new browser satisfies, and moving keeps at the heights of the events, holds of every run.
  pub run-keeps :
      (Height : ℕ → Type 0) (P : FileBrowser → Type 0)
      → ((d : Listing) (b : FileBrowser) → P (refresh_entries lowercase d b).0)
      → ((n : ℕ) (b : FileBrowser) → Height n → P b → P (move_up n b))
      → ((n : ℕ) (b : FileBrowser) → Height n → P b → P (move_down n b))
      → (events : List (Event lowercase)) (b : FileBrowser) → All (λ e. Height e.1) events
      → P b
      → P (run lowercase events b).0
  unfolding run
  run-keeps Height P fresh up down [] b hs h = h
  run-keeps Height P fresh up down ((d, n, key) ∷ events) b hs h =
      let next = handle_key-keeps n P fresh (λ c. up n c hs.0) (λ c. down n c hs.0) d key b h in
      ground (
        arith,
        next,
        run-keeps Height P fresh up down events (handle_key lowercase d n key b).0 hs.1 next,
      )

  pub new-keeps :
      (P : FileBrowser → Type 0)
      → ((d : Listing) (b : FileBrowser) → P (refresh_entries lowercase d b).0)
      → (d : Listing) (dir : FilePath) (mode : BrowserMode) {b : FileBrowser}
      → new lowercase d dir mode ≡ ok b
      → P b
  unfolding new
  new-keeps P fresh d dir mode {b} e =
      let start : FileBrowser = record {
        mode = mode;
        current_dir = dir;
        entries = [];
        selected = 0;
        scroll_offset = 0;
      } in
      ground (arith, e, fresh d start)

  refresh_entries-IsSound :
      (d : Listing) (b : FileBrowser) → IsSound (refresh_entries lowercase d b).0
  unfolding refresh_entries
  refresh_entries-IsSound d b = ground arith

  refresh_entries-IsInView :
      (height : ℕ)
      → 5 < height
      → (d : Listing) (b : FileBrowser) → IsInView height (refresh_entries lowercase d b).0
  unfolding refresh_entries
  refresh_entries-IsInView height rows d b = ground arith

  -- From a new browser on, whatever the keys and the sizes of the terminal, and whatever the disk holds at each of
  -- them, the selection is an entry if there is one, and no row past the end of the list is the first one shown.
  pub run-new-IsSound :
      (d : Listing) (dir : FilePath) (mode : BrowserMode) {b : FileBrowser}
      (events : List (Event lowercase))
      → new lowercase d dir mode ≡ ok b
      → IsSound (run lowercase events b).0
  run-new-IsSound d dir mode {b} events e =
      run-keeps (λ n. Unit {0}) IsSound refresh_entries-IsSound (λ n c _. move_up-IsSound n c)
        (λ n c _. move_down-IsSound n c) events b (All-trivial (λ x. tt) events)
        (new-keeps IsSound refresh_entries-IsSound d dir mode e)

  -- In a terminal that keeps its height of at least 7 rows, after any keys either the selected entry stands
  -- at its row of what is shown, or its row is the one just below the last that is shown.
  pub run-new-shown :
      (d : Listing) (dir : FilePath) (mode : BrowserMode) {b : FileBrowser} (height : ℕ)
      (events : List (Event lowercase))
      → new lowercase d dir mode ≡ ok b
      → 6 < height
      → All (λ e. e.1 ≡ height) events
      → let c = (run lowercase events b).0 in
        let row = c.selected - c.scroll_offset in
        (get_elem? (shown_entries height c) row ≡ get_elem? c.entries c.selected)
        ⊎ ((row ≡ height - 6) × (get_elem? (shown_entries height c) row ≡ none))
  run-new-shown d dir mode {b} height events e rows at_height =
      let c = (run lowercase events b).0 in
      let sound = run-new-IsSound d dir mode events e in
      let view : IsInView height c =
        run-keeps (λ n. n ≡ height) (IsInView height)
          (refresh_entries-IsInView height (omega arith))
          (λ n x same h. rw same (move_up-IsInView height (omega arith) x h))
          (λ n x same h. rw same (move_down-IsInView height (omega arith) x h)) events b at_height
          (new-keeps (IsInView height) (refresh_entries-IsInView height (omega arith)) d dir mode
            e) in
      let row = c.selected - c.scroll_offset in
      let at : c.scroll_offset + row ≡ c.selected = omega arith in
      let shown = shown_entries-row height row c sound.in_list in
      elim (Bool-cases (ltb row (height - 6))) [
        | inl inside ↦ inl (shown ∙ rw inside (ap (get_elem? c.entries) at))
        | inr outside ↦ inr (ground arith, shown ∙ rw outside)
      ]
