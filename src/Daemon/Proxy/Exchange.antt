-- ===== src/Daemon/Proxy/Exchange.antt =====
-- daemon/proxy.rs and daemon/server.rs: a request over a connection to the daemon.
use rxiu.Base.{
  take-length-append, ℕ, suc, ◌+◌, ◌-◌, ◌/◌, ◌%◌, ◌^◌, ◌≤◌, ◌<◌, ◌≡◌, ◌∙◌, refl, sym, subst, Str,
  Bytes, false, [], ◌++◌, ◌⊎◌, inr, append-nil, length, ltb, arith, length-append, take_all,
  drop_all,
}
use rxiu.Error.{ok}
use rxiu.External.{Cbor, Libp2p}
use rxiu.Wire.Frame.{from_be_bytes, encode_message}
use rxiu.Wire.Frame.RoundTrip.{from_be_bytes-to_be_bytes}
use rxiu.Daemon.Protocol.{DaemonRequest, DaemonResponse}
use rxiu.Daemon.Server.{
  Service, SyncManager, Ending, max_request, closed, handle_message, handle_request, handle_client,
}
use rxiu.Daemon.Proxy.{recv_response, request, read_timeout}

-- What is written of a value parses back.
abbrev pub Reads : {A : Type 0} → Cbor A → A → Type 0
Reads cbor a = cbor.from_slice (cbor.to_vec a) ≡ inr a

recv_response-encode_message :
    (cbor : Cbor DaemonResponse) (response : DaemonResponse) (rest : Bytes)
    → Reads cbor response
    → length (cbor.to_vec response) < 2 ^ 32
    → recv_response cbor (encode_message (cbor.to_vec response) ++ rest) ≡ ok response
unfolding recv_response encode_message
recv_response-encode_message cbor response rest reads small =
    let content = cbor.to_vec response in
    let n = length content % 2 ^ 32 in
    let len : from_be_bytes (n / 2 ^ 24 % 256) (n / 2 ^ 16 % 256) (n / 2 ^ 8 % 256) (n % 256)
        ≡ length content =
      from_be_bytes-to_be_bytes n (omega arith) ∙ omega arith in
    let room : ltb (length (content ++ rest)) (length content) ≡ false =
      ground (arith, length-append content rest) in
    rw (len, room, take-length-append content rest, reads)

encode_message-pos : (cbor : Bytes) → 0 < length (encode_message cbor)
unfolding encode_message
encode_message-pos cbor = omega arith

module _ {World : Type 0} (net : Libp2p) (p2p : Service World) (sync_manager : SyncManager World)
    (req_cbor : Cbor DaemonRequest) (resp_cbor : Cbor DaemonResponse) (clock : World → ℕ) where
  -- A connection to the daemon: what `handle_client` does with what the client sends, and the time that it takes by the
  -- clock, which is in milliseconds.
  abbrev pub daemon : Bytes → World → Str ⊎ (ℕ × Bytes × World)
  daemon input w =
      let done =
        handle_client net p2p sync_manager req_cbor resp_cbor (suc (length input)) input w in
      inr (clock done.2 - clock w, done.0, done.2)

  handle_message-whole :
      (req : DaemonRequest) (w : World) (next : Bytes → World → Bytes × Ending × World)
      → Reads req_cbor req
      → length (req_cbor.to_vec req) ≤ max_request
      → ((v : World) → next [] v ≡ ([], closed, v))
      → let content = req_cbor.to_vec req in
        let done =
          handle_message net p2p sync_manager req_cbor resp_cbor (length content) content next w in
        let (response, w') = handle_request net p2p sync_manager req w in
        (done.0 ≡ encode_message (resp_cbor.to_vec response) ++ []) × (done.2 ≡ w')
  unfolding handle_message
  handle_message-whole req w next reads small ends =
      let content = req_cbor.to_vec req in
      let (response, v) = handle_request net p2p sync_manager req w in
      let sent = encode_message (resp_cbor.to_vec response) in
      ground (
        arith,
        take_all (length content) content (omega arith),
        drop_all (length content) content (omega arith),
        reads,
        ends v,
        append-nil sent,
      )

  handle_client-encode_message :
      (req : DaemonRequest) (w : World) (fuel : ℕ)
      → Reads req_cbor req
      → length (req_cbor.to_vec req) ≤ max_request
      → let done =
          handle_client net p2p sync_manager req_cbor resp_cbor
            (suc (suc fuel))
            (encode_message (req_cbor.to_vec req))
            w in
        let (response, w') = handle_request net p2p sync_manager req w in
        (done.0 ≡ encode_message (resp_cbor.to_vec response) ++ []) × (done.2 ≡ w')
  unfolding handle_client encode_message
  handle_client-encode_message req w fuel reads small =
      let content = req_cbor.to_vec req in
      let n = length content % 2 ^ 32 in
      let len : from_be_bytes (n / 2 ^ 24 % 256) (n / 2 ^ 16 % 256) (n / 2 ^ 8 % 256) (n % 256)
          ≡ length content =
        from_be_bytes-to_be_bytes n (omega arith) ∙ omega arith in
      let next = handle_client net p2p sync_manager req_cbor resp_cbor (suc fuel) in
      let (response, w') = handle_request net p2p sync_manager req w in
      subst
        (λ k.
          let done = handle_message net p2p sync_manager req_cbor resp_cbor k content next w in
          (done.0 ≡ encode_message (resp_cbor.to_vec response) ++ []) × (done.2 ≡ w'))
        (sym len) (handle_message-whole req w next reads small (λ v. refl))

  -- Where the request and its answer parse back from their CBOR, and the request has at most 100 MiB and the answer less than 4 GiB and is there within less than 120 seconds, a request over a
  -- connection to the daemon gives the answer of `handle_request` and leaves the world as that does.
  pub request-daemon :
      (req : DaemonRequest) (w : World)
      → Reads req_cbor req
      → Reads resp_cbor (handle_request net p2p sync_manager req w).0
      → length (req_cbor.to_vec req) ≤ max_request
      → length (resp_cbor.to_vec (handle_request net p2p sync_manager req w).0) < 2 ^ 32
      → clock (handle_request net p2p sync_manager req w).1 < clock w + read_timeout
      → request req_cbor resp_cbor daemon req w ≡ (
        ok (handle_request net p2p sync_manager req w).0,
        (handle_request net p2p sync_manager req w).1,
      )
  unfolding request
  request-daemon req w reads reads' small small' soon =
      let content = encode_message (req_cbor.to_vec req) in
      let response = (handle_request net p2p sync_manager req w).0 in
      let fuel : length content ≡ suc (length content - 1) =
        omega (arith, encode_message-pos (req_cbor.to_vec req)) in
      let done = handle_client-encode_message req w (length content - 1) reads small in
      let received = recv_response-encode_message resp_cbor response [] reads' small' in
      ground (arith, fuel, done, received, soon)
