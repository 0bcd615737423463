-- ===== src/P2p/Peers/Known.antt =====
-- p2p/peer_store.rs: which peers are known after a peer is saved or removed.
use rxiu.Base.{
  ℕ, ◌-◌, ◌<◌, ◌≡◌, ◌∙◌, refl, ap, Str, str_eq, str_eq_iff, str_eq_refl, Bool, true, false, ◌&&◌,
  List, [], ◌∷◌, Option, none, some, any, filter, unwrap_or, ◌==◌, arith, All, any-map,
}
use rxiu.Base.Assoc.{insert, erase}
use rxiu.External.{Json, IsLossless}
use rxiu.P2p.Peers.{
  PersistedPeer, PeerStore, max_peer_age_secs, is_recent, read_store, load_peers, save_peer,
  remove_peer,
}

-- An entry of that id, seen at that time.
abbrev pub is_seen : Str → ℕ → PersistedPeer → Bool
is_seen peer_id now p = str_eq p.peer_id peer_id && (p.last_seen == now)

any-filter :
    {A : Type 0} (p q : A → Bool) (xs : List A) → any p (filter q xs) ≡ any (λ x. q x && p x) xs
any-filter p q [] = refl
any-filter p q (x ∷ xs) = ground (arith, any-filter p q xs)

any-insert :
    (p : Str × PersistedPeer → Bool) (k : Str) (v : PersistedPeer) (m : PeerStore)
    → p (k, v) ≡ true
    → any p (insert k v m) ≡ true
unfolding insert
any-insert p k v [] h = ground (arith, h)
any-insert p k v ((j, w) ∷ m) h = ground (arith, h, any-insert p k v m h)

-- Every entry is filed under its peer's id.
abbrev pub IsKeyed : PeerStore → Type 0
IsKeyed m = All (λ e. e.1.peer_id ≡ e.0) m

erase-missing :
    (k : Str) (q : Str × PersistedPeer → Bool) (m : PeerStore)
    → IsKeyed m
    → any (λ e. q e && str_eq e.1.peer_id k) (erase k m) ≡ false
unfolding erase
erase-missing k q [] h = refl
erase-missing k q ((j, w) ∷ m) h =
    ground (arith, h.0, str_eq_iff j k, str_eq_iff w.peer_id k, erase-missing k q m h.1)

module _ {Text : Type 0} (json : Json Text PeerStore) (lossless : IsLossless json) where
  read_store-to_text : (m : PeerStore) → read_store json (some (json.to_text m)) ≡ m
  unfolding read_store
  read_store-to_text m = ap (λ o. unwrap_or o []) (lossless m)

  any-load_peers :
      (p : PersistedPeer → Bool) (now : ℕ) (file : Option Text) (m : PeerStore)
      → read_store json file ≡ m
      → any p (load_peers json now file) ≡ any (λ e. is_recent now e && p e.1) m
  unfolding load_peers
  any-load_peers p now file m e =
      any-map (λ x. x.1) p (filter (is_recent now) (read_store json file))
      ∙ any-filter (λ x. p x.1) (is_recent now) (read_store json file)
      ∙ ap (any (λ x. is_recent now x && p x.1)) e

  load-save :
      (now later : ℕ) (peer_id : Str) (addrs : List Str) (file : Option Text)
      → later - now < max_peer_age_secs
      → any (is_seen peer_id now) (load_peers json later (save_peer json now peer_id addrs file))
        ≡ true
  unfolding save_peer
  load-save now later peer_id addrs file young =
      let peer : PersistedPeer = record { peer_id = peer_id; addrs = addrs; last_seen = now } in
      let m = insert peer_id peer (read_store json file) in
      let wanted = λ (e : Str × PersistedPeer). is_recent later e && is_seen peer_id now e.1 in
      any-load_peers (is_seen peer_id now) later (save_peer json now peer_id addrs file)
        (filter (is_recent now) m) (read_store-to_text (filter (is_recent now) m))
      ∙ any-filter wanted (is_recent now) m
      ∙ any-insert (λ e. is_recent now e && wanted e) peer_id peer (read_store json file)
          (ground (arith, young, str_eq_refl peer_id))

  load-remove :
      (later : ℕ) (peer_id : Str) (file : Option Text)
      → IsKeyed (read_store json file)
      → any (λ p. str_eq p.peer_id peer_id) (load_peers json later (remove_peer json peer_id file))
        ≡ false
  unfolding remove_peer load_peers read_store
  load-remove later peer_id none keyed = refl
  load-remove later peer_id (some text) keyed =
      let m = erase peer_id (read_store json (some text)) in
      any-load_peers (λ p. str_eq p.peer_id peer_id) later (remove_peer json peer_id (some text)) m
        (read_store-to_text m)
      ∙ erase-missing peer_id (is_recent later) (read_store json (some text)) keyed

  -- If what is written as JSON parses back, a saved peer is loaded again, with the time at which it was
  -- saved, until it is 7 days old; and where every entry is filed under its peer's id, a removed peer is
  -- not loaded.
  load_peers-save_peer :
      (now later : ℕ) (peer_id : Str) (addrs : List Str) (file : Option Text)
      → later - now < max_peer_age_secs
      → IsKeyed (read_store json file)
      → (any (is_seen peer_id now) (load_peers json later (save_peer json now peer_id addrs file))
          ≡ true)
        × (any
              (λ p. str_eq p.peer_id peer_id)
              (load_peers json later (remove_peer json peer_id file))
            ≡ false)
  load_peers-save_peer now later peer_id addrs file young keyed =
      (load-save now later peer_id addrs file young, load-remove later peer_id file keyed)
