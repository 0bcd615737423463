-- ===== src/Tui/Examples.antt =====
-- The terminal interface at small data: a zone `z` with the file `f`.
use rxiu.Base.{
  ◌≡◌, refl, codes, str_eq, Str, true, false, List, [], ◌∷◌, Option, none, some, inl, inr, arith,
  unwrap_or,
}
use rxiu.Base.Assoc.{lookup, insert, erase, has_key, contains}
use rxiu.Error.{err, no_active_zone, io}
use rxiu.Ui.Keys.{KeyCode, KeyEvent}
use rxiu.Samples.{full_disk, SampleText, of_files, identity_sha, files_json, registry_json, rs_json}
use rxiu.Tui.Text.{split_whitespace, trim, is_char_boundary}
use rxiu.Tui.App.{App, AppMode, Env, Disk, PendingAction, no_remote, no_transfer}
use rxiu.Tui.Editor.{edit, type_char}
use rxiu.Tui.Zipper.{Shows}
use rxiu.Tui.Zipper.Keys.{press_all, edit_all, edit_all-Shows}
use rxiu.Tui.Prompts.{question}
use rxiu.Rs.Types.{is_plain}
use rxiu.Rs.Metadata.{load_metadata}
use rxiu.Tui.RsCommands.{execute_rscfg}
use rxiu.Tui.Input.{handle_input}
use rxiu.Tui.Arms.{Outcome, done}
use rxiu.Tui.MainLoop.{key, run}
use rxiu.Tui.Asked.{IsAsked, file_at}
use rxiu.Tui.Answered.{Accounts}
use rxiu.Tui.Deletion.{HasPlainNames, handle_input-asks}
use rxiu.Tui.Failures.{type_char-panics, no_zone-exits, change, IsReset, execute_rscfg-resets}

abbrev env : Env
env = record {
  home_dir = none;
  desktop_dir = none;
  download_dir = none;
  working_dir = [];
  read_dir = λ p. err (io []);
  height = 24;
  now = 0;
  format_size = λ n. [];
  formatted_size = λ n. [];
  format_time = λ n. [];
  percent = λ a b. 0;
  lowercase = λ s. s;
  is_alphanumeric = λ c. true;
}

abbrev z : Str
z = codes "z"

abbrev f : Str
f = codes "f"

abbrev disk : Disk SampleText
disk = record {
  home = record {
    registry = none;
    directories = (z, record { metadata = some (of_files []); files = (f, 1 ∷ []) ∷ [] }) ∷ [];
  };
  rs = full_disk;
  config = none;
  own_files = λ p. none;
}

abbrev app : App
app = record {
  mode = AppMode.normal;
  zone_manager = record { zones = z ∷ []; active_zone = none };
  rs_mode = false;
  rs_concurrency = 8;
  rs_sync_concurrency = 8;
  rs_block_size_mb = 16;
  rs_global_sync = true;
  p2p = none;
  peer_count_cache = 0;
  peers_cache = [];
  pending_op = none;
  rs_files_cache = [];
  remote = no_remote;
  transfer = no_transfer;
  receives = false;
  input_buffer = [];
  cursor_pos = 0;
  output_lines = [];
  scroll_offset = 0;
  should_quit = false;
  status_message = none;
  tasks = [];
}

abbrev press_key : KeyCode → KeyEvent
press_key code = record { code = code; control = false; press = true }

-- The zone is active and its file's deletion is asked.
abbrev asking : App
asking = record app {
  zone_manager = record { zones = z ∷ []; active_zone = some z };
  mode = AppMode.confirmation (question f z) (PendingAction.delete_file f);
}

abbrev answer : Option (Outcome SampleText)
answer =
    handle_input identity_sha files_json registry_json rs_json env (press_key (KeyCode.char 121))
      (asking, disk)

deleted : elim answer [ none ↦ none | some o ↦ file_at z f o.1.1.home ] ≡ none
unfolding handle_input str_eq lookup insert erase has_key contains
deleted = refl

abbrev after : Outcome SampleText
after = unwrap_or answer (done disk asking)

asking-IsAsked : IsAsked asking
unfolding IsAsked
asking-IsAsked = (z, refl, refl)

asking_plain : HasPlainNames identity_sha files_json registry_json rs_json asking disk
unfolding is_plain load_metadata
asking_plain =
    (((refl, (refl, tt)), tt), ((refl, (refl, tt)), ((refl, tt), tt)), (refl, tt), (refl, tt))

handle_input-asks_example :
    IsAsked after.1.0 × Accounts (press_key (KeyCode.char 121)) asking disk.home after.1.1.home
unfolding handle_input str_eq lookup insert erase has_key contains
handle_input-asks_example =
    handle_input-asks identity_sha files_json registry_json rs_json env
      (press_key (KeyCode.char 121)) asking disk after asking_plain asking-IsAsked refl

-- `ab`, back over the `b`, and an `x` between.
abbrev keys : List KeyCode
keys = KeyCode.char 97 ∷ KeyCode.char 98 ∷ KeyCode.left ∷ KeyCode.char 120 ∷ KeyCode.delete ∷ []

edited : elim (edit_all keys app) [ none ↦ [] | some a ↦ a.input_buffer ] ≡ codes "ax"
unfolding edit
edited = refl

edit_all-Shows_example :
    (a : App) × (edit_all keys app ≡ some a)
    × Shows (press_all keys (record { before = []; after = [] })) a
edit_all-Shows_example =
    edit_all-Shows keys (record { before = []; after = [] }) app
      (omega arith, (omega arith, (tt, (omega arith, (tt, tt)))))
      (record { text = refl; cursor = refl; ascii = (tt, tt) })

-- A letter with an umlaut, and an `a`.
type_char-panics_example : (a : App) × (type_char 252 app ≡ some a) × (type_char 97 a ≡ none)
unfolding is_char_boundary
type_char-panics_example = type_char-panics 252 97 app (omega arith) refl

abbrev idle : App
idle = record app { input_buffer = codes "get f" }

no_zone-exits_example :
    (o : Outcome SampleText) × (run identity_sha files_json registry_json rs_json
        ((env, key (press_key KeyCode.enter)) ∷ [])
        (idle, disk)
      ≡ some o)
    × (o.0 ≡ err no_active_zone)
    × (o.1.1 ≡ disk)
unfolding split_whitespace trim
no_zone-exits_example =
    no_zone-exits identity_sha files_json registry_json rs_json env (press_key KeyCode.enter) []
      (codes "get") f idle disk refl refl refl refl refl (inr (inl refl)) refl refl

execute_rscfg-resets_example :
    IsReset
      (change (codes "gsyn" ∷ codes "1" ∷ []))
      (app, disk)
      (execute_rscfg (codes "gsyn" ∷ codes "1" ∷ []) (app, disk))
execute_rscfg-resets_example = execute_rscfg-resets (codes "gsyn" ∷ codes "1" ∷ []) app disk
