-- ===== src/Tui/MainLoop.antt =====
-- tui/app.rs: what the main loop does with an event of the terminal and with the timer. An error of a key leaves the
-- loop, and `none` is a panic.
use rxiu.Base.{
  Str, Bool, true, false, List, [], ◌∷◌, ◌++◌, Option, none, some, if◌then◌else◌, length, map, ◌==◌,
  ◌&&◌, ◌||◌,
}
use rxiu.Error.{ok, err}
use rxiu.External.{Json, Sha256}
use rxiu.Rs.Types.{RsMetadata}
use rxiu.Storage.Local.{FileMetadata}
use rxiu.Storage.Zones.{ZoneRegistry}
use rxiu.P2p.Node.{PeerInfo}
use rxiu.Ui.Keys.{KeyCode, KeyEvent}
use rxiu.Tui.App.{App, Env, Disk}
use rxiu.Tui.Input.{handle_input}
use rxiu.Tui.Arms.{Outcome, done}

pub data Event : Type 0 where
  key : KeyEvent → Event
  paste : Str → Event
  peer_update : List PeerInfo → Event

abbrev pub is_interrupt : KeyEvent → Bool
is_interrupt k = elim k.code [ KeyCode.char c ↦ (c == b'c') && k.control | _ ↦ false ]

unfoldable pub paste_text : Str → App → App
paste_text text a =
    let cleaned = map (λ c. if c == 13 || c == 10 then b' ' else c) text in
    let input = a.input_buffer ++ cleaned in
    record a { input_buffer = input; cursor_pos = length input }

unfoldable pub update_peers : List PeerInfo → App → App
update_peers peers a = elim a.p2p [
  | none ↦ a
  | some _ ↦ record a { peer_count_cache = length peers; peers_cache = peers }
]

module _ {Text : Type 0} (sha : Sha256) (json : Json Text (List FileMetadata))
    (registry_json : Json Text ZoneRegistry) (rs_json : Json Text RsMetadata) where
  unfoldable pub handle_event : Env → Event → App × Disk Text → Option (Outcome Text)
  unfolding handle_input paste_text update_peers
  handle_event env (key k) (a, d) =
      handle_input sha json registry_json rs_json env k
        ((if is_interrupt k then record a { should_quit = true } else a), d)
  handle_event env (paste text) (a, d) = some (done d (paste_text text a))
  handle_event env (peer_update peers) (a, d) = some (done d (update_peers peers a))

  -- The loop, up to the end of the events.
  unfoldable pub run : List (Env × Event) → App × Disk Text → Option (Outcome Text)
  unfolding handle_event
  run [] (a, d) = some (done d a)
  run ((env, e) ∷ events) ad = elim (handle_event env e ad) [
    | none ↦ none
    | some (err why, ad') ↦ some (err why, ad')
    | some (ok _, (a, d)) ↦ if a.should_quit then some (done d a) else run events (a, d)
  ]
