-- ===== src/Ui/Browser/Order.antt =====
-- ui/browser.rs: the entries of a directory and their order.
use rxiu.Base.{
  ◌≡◌, refl, Str, Bool, true, false, not, List, [], ◌∷◌, ◌++◌, filter, map, arith, All, All-imp,
  Bool-cases, inl, inr, bytes_le_total, bytes_le_trans,
}
use rxiu.Base.Sort.{sort_by, IsSorted, sort_by-IsSorted, sort_by-perm, All-sort_by}
use mathlib.Core.List.{Perm, perm_middle}
use mathlib.Core.List.Perm
use rxiu.Error.{ok}
use rxiu.Ui.Browser.{
  Entry, FileBrowser, Listing, is_hidden, to_entry, parent_entry, name_le, dir_entries,
  refresh_entries,
}

filter-append-perm {ℓ} :
    {A : Type ℓ} (p : A → Bool) (xs : List A) → Perm (filter p xs ++ filter (λ x. not (p x)) xs) xs
filter-append-perm p [] = Perm.refl _
filter-append-perm p (x ∷ xs) =
    let rest = filter-append-perm p xs in
    elim (Bool-cases (p x)) [
      | inl pass ↦ rw pass (Perm.cons x rest)
      | inr fail ↦
          rw fail
            (Perm.trans (perm_middle (filter p xs) (filter (λ y. not (p y)) xs)) (Perm.cons x rest))
    ]

All-passed {ℓ} : {A : Type ℓ} (p : A → Bool) (xs : List A) → All (λ x. p x ≡ true) (filter p xs)
All-passed p [] = tt
All-passed p (x ∷ xs) = ground (arith, All-passed p xs)

name_le_total :
    (lowercase : Str → Str) (a b : Entry)
    → name_le lowercase a b ≡ false
    → name_le lowercase b a ≡ true
name_le_total lowercase a b h = bytes_le_total (lowercase a.name) (lowercase b.name) h

name_le_trans :
    (lowercase : Str → Str) (a b c : Entry)
    → name_le lowercase a b ≡ true
    → name_le lowercase b c ≡ true
    → name_le lowercase a c ≡ true
name_le_trans lowercase a b c =
    bytes_le_trans (lowercase a.name) (lowercase b.name) (lowercase c.name)

module _ (lowercase : Str → Str) where
  -- A directory that can be read is listed by the parent's entry, where there is a parent, then its directories, then its other
  -- entries, each in the order of their names in lower case; together these are the entries that are not hidden, each as often as it
  -- is there.
  pub refresh_entries-lists :
      (d : Listing) (b : FileBrowser) {names : List (Str × Bool)}
      → d b.current_dir ≡ ok names
      → (dirs : List Entry) × (files : List Entry) × ((refresh_entries lowercase d b).0.entries
          ≡ parent_entry b.current_dir ++ (dirs ++ files))
        × All (λ e. e.is_dir ≡ true) dirs
        × All (λ e. e.is_dir ≡ false) files
        × IsSorted (name_le lowercase) dirs
        × IsSorted (name_le lowercase) files
        × Perm
            (dirs ++ files)
            (map (to_entry b.current_dir) (filter (λ e. not (is_hidden e.0)) names))
  unfolding refresh_entries dir_entries
  refresh_entries-lists d b {names} e =
      let shown = map (to_entry b.current_dir) (filter (λ e. not (is_hidden e.0)) names) in
      let dirs = sort_by (name_le lowercase) (filter (λ e. e.is_dir) shown) in
      let files = sort_by (name_le lowercase) (filter (λ e. not e.is_dir) shown) in
      let le = name_le lowercase in
      (
        dirs,
        files,
        rw (e, refresh_entries) refl,
        All-sort_by le (λ x. x.is_dir ≡ true) (filter (λ x. x.is_dir) shown)
            (All-passed (λ x. x.is_dir) shown),
        All-sort_by le (λ x. x.is_dir ≡ false) (filter (λ x. not x.is_dir) shown)
            (All-imp (λ x h. ground (arith, h)) (filter (λ x. not x.is_dir) shown)
              (All-passed (λ x. not x.is_dir) shown)),
        sort_by-IsSorted le (name_le_total lowercase) (name_le_trans lowercase)
            (filter (λ x. x.is_dir) shown),
        sort_by-IsSorted le (name_le_total lowercase) (name_le_trans lowercase)
            (filter (λ x. not x.is_dir) shown),
        Perm.trans
            (Perm.append (Perm.symm (sort_by-perm le (filter (λ x. x.is_dir) shown)))
              (Perm.symm (sort_by-perm le (filter (λ x. not x.is_dir) shown))))
            (filter-append-perm (λ x. x.is_dir) shown),
      )
