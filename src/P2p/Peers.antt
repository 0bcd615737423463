-- ===== src/P2p/Peers.antt =====
-- p2p/peer_store.rs: the known peers on disk. The state is the text of known_peers.json, if it is there;
-- a text that does not parse counts as no peers. A home directory is taken to exist and the file to be readable
-- and writable. Times are seconds.
pub mod Known
use rxiu.Base.{
  ℕ, ◌-◌, ◌*◌, Str, Bool, List, [], ◌∷◌, map, Option, none, some, filter, unwrap_or, ltb,
}
use rxiu.Base.Assoc.{insert, erase}
use rxiu.External.{Json}

abbrev pub max_peer_age_secs : ℕ
max_peer_age_secs = 7 * 24 * 60 * 60

pub record PersistedPeer : Type 0 where
  pub peer_id : Str
  pub addrs : List Str
  pub last_seen : ℕ

abbrev pub PeerStore : Type 0
PeerStore = List (Str × PersistedPeer)

-- The test of `load_peers` and of the pruning in `save_peer`.
abbrev pub is_recent : ℕ → Str × PersistedPeer → Bool
is_recent now p = ltb (now - p.1.last_seen) max_peer_age_secs

module _ {Text : Type 0} (json : Json Text PeerStore) where
  -- `unwrap_or_default` on the parsed content; no peers where the file is missing.
  unfoldable pub read_store : Option Text → PeerStore
  read_store none = []
  read_store (some text) = unwrap_or (json.from_text text) []

  unfoldable pub load_peers : ℕ → Option Text → List PersistedPeer
  unfolding read_store
  load_peers now file = map (λ p. p.1) (filter (is_recent now) (read_store file))

  unfoldable pub save_peer : ℕ → Str → List Str → Option Text → Option Text
  unfolding read_store
  save_peer now peer_id addrs file =
      let peer : PersistedPeer = record { peer_id = peer_id; addrs = addrs; last_seen = now } in
      some (json.to_text (filter (is_recent now) (insert peer_id peer (read_store file))))

  unfoldable pub remove_peer : Str → Option Text → Option Text
  unfolding read_store
  remove_peer peer_id none = none
  remove_peer peer_id (some text) = some (json.to_text (erase peer_id (read_store (some text))))
