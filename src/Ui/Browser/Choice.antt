-- ===== src/Ui/Browser/Choice.antt =====
-- ui/browser.rs: what a confirmed choice is.
use rxiu.Base.{
  ℕ, zero, suc, ◌≡◌, ◌⊎◌, inl, inr, Str, codes, str_eq, str_eq_iff, Bool, true, false, not, List,
  [], ◌∷◌, some, get_elem?, arith, All, Any, Option-cases, Bool-cases, ◌&&◌,
}
use rxiu.Ui.Browser.{
  BrowserMode, select_file, select_directory, FilePath, parent, Entry, FileBrowser, select, move_up,
  move_down, adjust_scroll, confirm,
}

-- An entry is the parent's or that of a child.
abbrev pub IsNear : FilePath → Entry → Type 0
IsNear dir e =
    (e.path ≡ e.name ∷ dir)
    ⊎ ((e.name ≡ codes "..") × (e.is_dir ≡ true) × (parent dir ≡ some e.path))

abbrev pub IsListing : FileBrowser → Type 0
IsListing b = All (IsNear b.current_dir) b.entries

-- A child of the current directory that is listed, as a directory or not.
abbrev pub IsListed : Bool → FileBrowser → FilePath → Type 0
IsListed is_dir b path =
    ((name : Str) × (path ≡ name ∷ b.current_dir))
    × Any (λ e. (e.path ≡ path) × (e.is_dir ≡ is_dir)) b.entries

abbrev pub IsChosen : BrowserMode → FileBrowser → FilePath → Type 0
IsChosen select_file b path = IsListed false b path
IsChosen select_directory b path = (path ≡ b.current_dir) ⊎ IsListed true b path

module _ {ℓ} {A : Type ℓ} where
  Any-get_elem? :
      (P : A → Type 0) (xs : List A) (i : ℕ) {x : A} → get_elem? xs i ≡ some x → P x → Any P xs
  Any-get_elem? P [] i e p = cc
  Any-get_elem? P (x ∷ xs) zero e p = inl (ground (arith, e, p))
  Any-get_elem? P (x ∷ xs) (suc i) e p = inr (Any-get_elem? P xs i e p)

  All-get_elem? :
      (P : A → Type 0) (xs : List A) (i : ℕ) {x : A} → All P xs → get_elem? xs i ≡ some x → P x
  All-get_elem? P [] i h e = cc
  All-get_elem? P (x ∷ xs) zero h e = ground (arith, h.0, e)
  All-get_elem? P (x ∷ xs) (suc i) h e = All-get_elem? P xs i h.1 e

pub move_up-IsListing : (n : ℕ) (b : FileBrowser) → IsListing b → IsListing (move_up n b)
unfolding move_up adjust_scroll
move_up-IsListing n b h = ground arith

pub move_down-IsListing : (n : ℕ) (b : FileBrowser) → IsListing b → IsListing (move_down n b)
unfolding move_down adjust_scroll
move_down-IsListing n b h = ground arith

-- A selected entry that is no directory is a child, and so is one that is not the parent's.
pub entry-IsListed :
    (b : FileBrowser) {entry : Entry} (flag : Bool) {path : FilePath}
    → IsListing b
    → get_elem? b.entries b.selected ≡ some entry
    → (entry.is_dir ≡ false) ⊎ (str_eq entry.name (codes "..") ≡ false)
    → entry.is_dir ≡ flag
    → entry.path ≡ path
    → IsListed flag b path
entry-IsListed b {entry} flag {path} near e child kind place =
    let there =
      Any-get_elem? (λ x. (x.path ≡ path) × (x.is_dir ≡ flag)) b.entries b.selected e
        (place, kind) in
    elim (All-get_elem? (IsNear b.current_dir) b.entries b.selected near e) [
      | inl below ↦ ((entry.name, ground (arith, below, place)), there)
      | inr (up, dir, _) ↦ absurd (ground (arith, child, str_eq_iff entry.name (codes "..")))
    ]

pub confirm-chooses :
    (b : FileBrowser) (mode : BrowserMode) {path : FilePath}
    → IsListing b
    → b.mode ≡ mode
    → confirm b ≡ select path
    → IsChosen mode b path
unfolding confirm
confirm-chooses b select_file {path} near m e =
    elim (Option-cases (get_elem? b.entries b.selected)) [
      | inl nothing ↦ absurd (ground (arith, e, m, nothing))
      | inr (entry, at) ↦
          let file : entry.is_dir ≡ false = ground (arith, e, m, at) in
          entry-IsListed b false near at (inl file) file (ground (arith, e, m, at, file))
    ]
confirm-chooses b select_directory {path} near m e =
    elim (Option-cases (get_elem? b.entries b.selected)) [
      | inl nothing ↦ inl (ground (arith, e, m, nothing))
      | inr (entry, at) ↦ elim (Bool-cases (entry.is_dir && not (str_eq entry.name (codes "..")))) [
        | inl below ↦ inr (
            entry-IsListed b true near at (inr (ground (arith, below))) (ground (arith, below))
              (ground (arith, e, m, at, below)))
        | inr stays ↦ inl (ground (arith, e, m, at, stays))
      ]
    ]
