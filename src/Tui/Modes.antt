-- ===== src/Tui/Modes.antt =====
-- tui/input.rs: the commands that answer at once leave the mode as it is.
use rxiu.Base.{◌≡◌, Str, List, [], ◌∷◌, arith, refl}
use rxiu.External.{Json}
use rxiu.Rs.Types.{RsMetadata, RsDisk}
use rxiu.Tui.App.{App, Env, Disk, print, print_lines}
use rxiu.Tui.RsCommands.{
  execute_rs_stats, execute_rs_have, execute_rscfg, set_concurrency, set_sync_concurrency,
  set_block_size, set_global_sync, show_config, save_config,
}
use rxiu.Tui.Arms.{remote_command}
use rxiu.Tui.Screen.{execute_peers_list, execute_rs_peers, enter_rs, peer_table}
use rxiu.Tui.Remote.{
  execute_remote_query, execute_ruse, select_peer, show_remote_status, execute_rarea, execute_rlist,
  list_zone,
}

pub execute_ruse-mode : (arg : Str) (a : App) → (execute_ruse arg a).mode ≡ a.mode
unfolding execute_ruse select_peer print print_lines
execute_ruse-mode arg a = ground arith

pub execute_peers_list-mode : (a : App) → (execute_peers_list a).mode ≡ a.mode
unfolding execute_peers_list peer_table print print_lines
execute_peers_list-mode a = ground arith

pub show_remote_status-mode : (a : App) → (show_remote_status a).mode ≡ a.mode
unfolding show_remote_status print_lines
show_remote_status-mode a = ground arith

pub execute_rarea-mode : (a : App) → (execute_rarea a).mode ≡ a.mode
unfolding execute_rarea execute_peers_list peer_table print print_lines
execute_rarea-mode a = ground arith

pub execute_rlist-mode : (a : App) → (execute_rlist a).mode ≡ a.mode
unfolding execute_rlist print print_lines
execute_rlist-mode a = ground arith

pub list_zone-mode : (zone : Str) (a : App) → (list_zone zone a).mode ≡ a.mode
unfolding list_zone print print_lines
list_zone-mode zone a = ground arith

pub enter_rs-mode : (a : App) → (enter_rs a).mode ≡ a.mode
unfolding enter_rs print print_lines
enter_rs-mode a = ground arith

pub execute_rs_peers-mode : (a : App) → (execute_rs_peers a).mode ≡ a.mode
unfolding execute_rs_peers peer_table print print_lines
execute_rs_peers-mode a = ground arith

pub execute_remote_query-mode : (arg : Str) (a : App) → (execute_remote_query arg a).mode ≡ a.mode
unfolding execute_remote_query print print_lines
execute_remote_query-mode arg a = ground arith

pub remote_command-mode : (args : List Str) (a : App) → (remote_command args a).mode ≡ a.mode
unfolding remote_command print_lines
remote_command-mode [] a = execute_peers_list-mode a
remote_command-mode (arg ∷ args) a = execute_remote_query-mode arg a

module _ {Text : Type 0} (rs_json : Json Text RsMetadata) where
  pub execute_rs_stats-mode :
      (env : Env) (d : RsDisk Text) (a : App) → (execute_rs_stats rs_json env d a).mode ≡ a.mode
  unfolding execute_rs_stats print print_lines
  execute_rs_stats-mode env d a = ground arith

  pub execute_rs_have-mode :
      (env : Env) (d : RsDisk Text) (arg : Str) (a : App)
      → (execute_rs_have rs_json env d arg a).mode ≡ a.mode
  unfolding execute_rs_have print print_lines
  execute_rs_have-mode env d arg a = ground arith

-- The settings, and the zones that they leave.
pub execute_rscfg-mode :
    {Text : Type 0} (args : List Str) (a : App) (d : Disk Text)
    → let (a', d') = execute_rscfg args (a, d) in (a'.mode ≡ a.mode) × (d'.home ≡ d.home)
unfolding execute_rscfg set_concurrency set_sync_concurrency set_block_size set_global_sync
    save_config show_config print print_lines
execute_rscfg-mode [] a d = (refl, refl)
execute_rscfg-mode (name ∷ []) a d = ground arith
execute_rscfg-mode (name ∷ value ∷ []) a d = ground arith
execute_rscfg-mode (name ∷ value ∷ more ∷ args) a d = (refl, refl)
