-- ===== src/P2p/Handle/Samples.antt =====
-- A session of the service in which Alice, who holds the sample files, answers.
use rxiu.Base.{◌≤◌, ◌*◌, ℕ, refl, [], ◌∷◌, none, arith, inr}
use rxiu.Base.Assoc.{lookup}
use rxiu.Error.{ok, err, no_active_zone}
use rxiu.P2p.Messages.{FileRequest, FileResponse}
use rxiu.P2p.Node
use rxiu.P2p.Node.{response_event}
use rxiu.P2p.Peers.{PeerStore}
use rxiu.P2p.Service.{Shared}
use rxiu.P2p.Loop.Timer.{Clock}
use rxiu.P2p.Loop.Run.{event, heartbeat_tick, reconnect_tick}
use rxiu.P2p.Loop.Samples.{swarm, lib, json, handle, alice, start}
use rxiu.P2p.Handle.{Session, sent_on}
use rxiu.P2p.Handle.Peer.{Serves}
use rxiu.P2p.Service.Replies.{response_of}
use rxiu.Samples.{SampleText, identity_sha, files_json, rs_json, full_disk}

abbrev pub peer : Shared SampleText
peer = record {
  manager = record { zones = []; active_zone = none };
  home = record { registry = none; directories = [] };
  rs = full_disk;
}

abbrev pub answers : FileRequest → FileResponse
answers request =
    response_of identity_sha files_json rs_json (λ n. 1) (err no_active_zone) (ok (7 ∷ [])) request
      peer

abbrev clock : Clock
clock = record { wake_now = 0; wake_next = 0; recover_now = 0; unix = 0 }

-- The heartbeat ticks, and a millisecond later the peer's response to the request is there. It ticks again after 5 and after 10 seconds, and
-- the loop dials again after 30.
abbrev pub session : FileRequest → Session PeerStore ℕ ℕ
session request = record {
  state = start;
  ahead =
      (0, heartbeat_tick clock)
      ∷ (
        1,
        event 0 (
            response_event swarm alice (Node.send_request swarm alice request start.node).0
              (answers request)),
      )
      ∷ (5000, heartbeat_tick clock)
      ∷ (10000, heartbeat_tick clock)
      ∷ (30000, reconnect_tick 30)
      ∷ [];
  now = 0;
  ticket = 3;
}

pub answered_in_time :
    (request : FileRequest) (secs : ℕ)
    → 1 ≤ secs * 1000
    → Serves identity_sha files_json rs_json
        (λ n. 1)
        (err no_active_zone)
        (ok (7 ∷ []))
        swarm
        lib
        json
        handle
        alice
        request
        secs
        peer
        (session request)
unfolding sent_on lookup
answered_in_time request secs long = record {
  before = (0, heartbeat_tick clock) ∷ [];
  at = 1;
  unix = 0;
  later =
      (5000, heartbeat_tick clock)
      ∷ (10000, heartbeat_tick clock)
      ∷ (30000, reconnect_tick 30)
      ∷ [];
  ahead = refl;
  soon = omega (arith, long);
  idle = ((omega (arith, long), tt), tt);
  quiet = (inr tt, (inr tt, (inr tt, tt)));
  unsent = refl;
  new = (refl, refl, refl);
}
