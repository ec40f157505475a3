-- ===== src/Tests/Nacks.antt =====
-- The server, the retransmitter and the datagrams at concrete inputs.

use retry_endpoint.Frames.{Classes}
use retry_endpoint.Prelude.{
  true, replicate, zero, suc, ℕ, ◌+◌, ◌≤◌, ◌≡◌, refl, ◌&&◌, not, some, [], ◌↔◌, arith, length,
  get_or, if◌then◌else◌,
}
use retry_endpoint.Prelude.Bytes.{Bytes, to_be, uint_at}
use retry_endpoint.Retransmit
use retry_endpoint.Retransmit.{Target, target_group, build_dedup_key}
use retry_endpoint.Retransmit.Groups.{rate_group-target_group}
use retry_endpoint.Retransmit.Keys.{IsBytes, build_dedup_key_iff}
use retry_endpoint.Server.Calls.{writes, enqueues}
use retry_endpoint.Server.Handler
use retry_endpoint.Server.Honest.{
  allowed_ack, with_reply, multicast_result, unicast_result, serve-ack,
}
use retry_endpoint.Server.OneHop.{process_nack-enqueues}
use retry_endpoint.Server.Replies.{AtMostOne, process_nack-AtMostOne}
use retry_endpoint.Server.Wire.{cache_key, parse_request}
use retry_endpoint.Tests.Values.{
  is_version, lib, nack_frame, tx_frame, listener, server, request, hits, misses, start,
  retransmitter,
}

serve-ack_example :
    writes (Handler.serve lib hits server request (some listener) tx_frame start).1.calls ≡ (
      if server.suppress_ack
      then []
      else with_reply lib listener 5
          (allowed_ack (multicast_result lib hits server tx_frame tt).0 (
            unicast_result lib hits server request listener tx_frame
              (multicast_result lib hits server tx_frame tt).1))
          [])
serve-ack_example = serve-ack lib hits server request listener tx_frame start

process_nack-enqueues_example :
    let n =
      enqueues (Handler.process_nack lib misses server nack_frame (some listener) start).1.calls in
    (0 ≤ n) × (n ≤ (if server.proxy && not (parse_request nack_frame).proxied then 1 else 0) + 0)
process_nack-enqueues_example =
    process_nack-enqueues lib misses server nack_frame (some listener) start

process_nack-AtMostOne_example :
    AtMostOne lib
      (some listener)
      []
      (writes (Handler.process_nack lib hits server nack_frame (some listener) start).1.calls)
process_nack-AtMostOne_example =
    process_nack-AtMostOne lib hits server nack_frame (some listener) start

abbrev flow : ℕ
flow = 7

abbrev position : ℕ
position = 5

ones-IsBytes : (n : ℕ) → IsBytes (replicate n 1)
ones-IsBytes zero = tt
ones-IsBytes (suc n) = (omega arith, ones-IsBytes n)

build_dedup_key_iff_example :
    ((build_dedup_key (replicate 60 1) ≡ build_dedup_key (replicate 70 1)) ↔ (
      (uint_at 40 8 (replicate 60 1) ≡ uint_at 40 8 (replicate 70 1))
      × (uint_at 48 8 (replicate 60 1) ≡ uint_at 48 8 (replicate 70 1))))
    × (build_dedup_key (replicate 60 1)
        ≡ cache_key (uint_at 40 8 (replicate 60 1)) (uint_at 48 8 (replicate 60 1)))
build_dedup_key_iff_example =
    build_dedup_key_iff (replicate 60 1) (replicate 70 1) (ones-IsBytes 60) (ones-IsBytes 70)
      (omega arith) (omega arith)

version_iff : (n : ℕ) (raw : Bytes) → (is_version n raw ≡ true) ↔ (get_or raw 6 0 ≡ n)
version_iff n raw = (λ h. ground arith, λ h. ground arith)

lib-Classes : Classes lib
lib-Classes = record { bundle_iff = version_iff 8; beef_iff = version_iff 9 }

abbrev beef_group : Bytes → ℕ
beef_group topic = 4

tx_frame-long : 88 ≤ length tx_frame
unfolding to_be
tx_frame-long = omega arith

tx_frame-version : get_or tx_frame 6 0 ≡ 2
unfolding to_be
tx_frame-version = refl

rate_group-target_group_example :
    target_group lib
      (record retransmitter { beef_engine = some beef_group })
      tx_frame
      (Handler.tx_id tx_frame)
    ≡ Target.to (
        retransmitter.engine.addr (
          Handler.rate_group lib hits
            (record server { beef_engine = some beef_group })
            retransmitter.engine.group_index
            tx_frame))
rate_group-target_group_example =
    rate_group-target_group lib hits (record server { beef_engine = some beef_group })
      (record retransmitter { beef_engine = some beef_group }) beef_group tx_frame lib-Classes refl
      refl tx_frame-long (λ e. omega (arith, e, tx_frame-version))
      (λ e. omega (arith, e, tx_frame-version)) (λ e. omega (arith, e, tx_frame-version))
      (λ e. omega (arith, e, tx_frame-version))
