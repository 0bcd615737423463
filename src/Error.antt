-- ===== src/Error.antt =====
-- error.rs: the application's errors, and the results of fallible code. An I/O error and a
-- serialization error carry their message.
use rxiu.Base.{Str, codes, ◌++◌, ◌≡◌, ◌⊎◌, inl, inr, refl}

pub data AppError : Type 0 where
  zone_already_exists zone_not_found : Str → AppError
  no_active_zone : AppError
  file_not_found file_already_exists path_not_found not_a_file : Str → AppError
  cancelled invalid_command : AppError
  missing_argument io serialization : Str → AppError
  no_home_directory : AppError

pub data Result {ℓ} (A : Type ℓ) : Type ℓ where
  ok : A → Result A
  err : AppError → Result A

infixl 5 ◌>>=◌
abbrev pub ◌>>=◌ {ℓ κ} : {A : Type ℓ} {B : Type κ} → Result A → (A → Result B) → Result B
ok a >>= f = f a
err e >>= f = err e

pub Result-cases {ℓ} :
    {A : Type ℓ} (r : Result A) → ((a : A) × (r ≡ ok a)) ⊎ ((e : AppError) × (r ≡ err e))
Result-cases (ok a) = inl (a, refl)
Result-cases (err e) = inr (e, refl)

-- The messages of the `#[error]` attributes.
unfoldable pub to_string : AppError → Str
to_string (zone_already_exists s) = codes "Zone '" ++ s ++ codes "' already exists"
to_string (zone_not_found s) = codes "Zone '" ++ s ++ codes "' not found"
to_string no_active_zone = codes "No active zone. Use 'use <zone_name>' to select one"
to_string (file_not_found s) = codes "File '" ++ s ++ codes "' not found in current zone"
to_string (file_already_exists s) =
    codes "File '" ++ s ++ codes "' already exists in zone. Rename or remove it first"
to_string (path_not_found s) = codes "Path does not exist: " ++ s
to_string (not_a_file s) = codes "Not a file: " ++ s
to_string cancelled = codes "Operation cancelled by user"
to_string invalid_command = codes "Invalid command. Type 'help' for available commands"
to_string (missing_argument s) = codes "Missing argument: " ++ s
to_string (io s) = codes "IO error: " ++ s
to_string (serialization s) = codes "Data serialization error: " ++ s
to_string no_home_directory = codes "Could not determine home directory"
