-- ===== src/Tests/Ingest.antt =====
-- The ingress at concrete inputs, and a frame on its way through the cache to a NACK.
use mathlib.Core.List.{Perm}
use retry_endpoint.Cache
use retry_endpoint.Config.Loaded.{Positive}
use retry_endpoint.Effects.{Run}
use retry_endpoint.Frames.{Header}
use retry_endpoint.Ingress.{partition}
use retry_endpoint.Ingress.Frame
use retry_endpoint.Ingress.Parts.{joined, partition-Perm}
use retry_endpoint.Ingress.Pipeline.{queue_index}
use retry_endpoint.Ingress.Pipeline.Slots
use retry_endpoint.Ingress.Pipeline.Slots.{Step, Reach, first_state, slots_from, idle_procs, weigh}
use retry_endpoint.Ingress.Pipeline.Slots.Blocking.{NeverBlocks, Reach-NeverBlocks}
use retry_endpoint.Ingress.Pipeline.Shards.{Delivers, queue_index-key}
use retry_endpoint.Ingress.Recall.{view}
use retry_endpoint.Ingress.Kept.{Kept}
use retry_endpoint.Ingress.Store.{Decoders, header_of, class_ttl, process_frame-Kept}
use retry_endpoint.Prelude.{
  ℕ, ◌<◌, ◌≤◌, ◌≡◌, refl, true, false, ◌&&◌, ◌==◌, Option, none, some, List, [], ◌∷◌, ◌++◌, arith,
  length,
}
use retry_endpoint.Prelude.Bytes.{be, Bytes, uint_at, to_be}
use retry_endpoint.Prelude.Int.{pos}
use retry_endpoint.Server.Calls.{Deps}
use retry_endpoint.Server.Handler
use retry_endpoint.Server.Refusals.{effects, hint, of_group, process_nack-refused}
use retry_endpoint.Server.Serves.{multicasts}
use retry_endpoint.Server.Wire.{cache_key, parse_request, validate_nack}
use retry_endpoint.Startup.Groups.{ingress_worker}
use retry_endpoint.Startup.Wiring.{server_of, server_of-shard_engine}
use retry_endpoint.Tests.Configs.{engine, config}
use retry_endpoint.Startup.EndToEnd.{Lets, nack_after_frame, process_frame-process_nack}
use retry_endpoint.Tests.Values.{
  memory, memory-ReadsBack, nack_frame, hits, listener, server, start, lib, decode_at, tx_frame,
  worker, accepting, tee,
}

decode_at-Reads :
    (raw : Bytes) (h : Header)
    → decode_at raw ≡ some h
    → (h.hash_key ≡ uint_at 40 8 raw) × (h.seq_num ≡ uint_at 48 8 raw)
decode_at-Reads raw h e = (ground arith, ground arith)

lib-Decoders : Decoders lib accepting worker
lib-Decoders = record {
  whole = decode_at-Reads;
  block = decode_at-Reads;
  subtree_data = decode_at-Reads;
  anchor = decode_at-Reads;
  beef = decode_at-Reads;
  fragment = λ raw h e. absurd (cc e);
}

process_frame-Kept_example :
    Kept lib accepting worker tx_frame
      (Frame.process_frame lib accepting worker tx_frame [])
      (header_of lib accepting worker tx_frame)
      (class_ttl lib accepting worker tx_frame)
process_frame-Kept_example = process_frame-Kept lib accepting worker tx_frame [] lib-Decoders

abbrev groups : List ℕ
groups = 10 ∷ 11 ∷ 12 ∷ []

abbrev frames : Cache.Store
frames = record { prefix = 102 ∷ 58 ∷ []; op_timeout = pos 1; is_local = true }

abbrev empty_memory : Run (Bytes → Option Bytes) Frame.Call
empty_memory = record { world = λ _. none; calls = [] }

memory-Decoders : Decoders lib (view memory frames) (ingress_worker engine config)
memory-Decoders = record {
  whole = decode_at-Reads;
  block = decode_at-Reads;
  subtree_data = decode_at-Reads;
  anchor = decode_at-Reads;
  beef = decode_at-Reads;
  fragment = λ raw h e. absurd (cc e);
}

tx_frame-decodes :
    header_of lib (view memory frames) (ingress_worker engine config) tx_frame
    ≡ some (record { hash_key = 7; seq_num = 5 })
unfolding to_be be
tx_frame-decodes = refl

nack_frame-hash_key : (parse_request nack_frame).hash_key ≡ uint_at 40 8 tx_frame
unfolding parse_request to_be be
nack_frame-hash_key = refl

nack_frame-start_seq : (parse_request nack_frame).start_seq ≡ uint_at 48 8 tx_frame
unfolding parse_request to_be be
nack_frame-start_seq = refl

memory-accepts :
    (view memory frames
      (λ _. none)
      (cache_key (uint_at 40 8 tx_frame) (uint_at 48 8 tx_frame))
      tx_frame
      (class_ttl lib (view memory frames) (ingress_worker engine config) tx_frame)).0
    ≡ true
unfolding Cache.store
memory-accepts = refl

config-Positive : Positive config.ttls
config-Positive = record {
  tx = omega arith;
  block = omega arith;
  subtree = omega arith;
  anchor = omega arith;
  beef = omega arith;
}

abbrev flow_group : Bytes → ℕ
flow_group id = 3

nack_frame-valid : validate_nack lib nack_frame ≡ none
unfolding validate_nack to_be be
nack_frame-valid = refl

nack_frame-single :
    ((parse_request nack_frame).end_seq == (parse_request nack_frame).start_seq) ≡ true
unfolding parse_request to_be be
nack_frame-single = refl

lets :
    Lets memory frames hits lib
      (server_of config flow_group flow_group)
      (parse_request nack_frame)
      listener.ip
      tx_frame
      tt
lets = record {
  admitted = refl;
  chained = refl;
  sends = rw (server_of-shard_engine config flow_group flow_group) (refl, refl);
}

process_frame-process_nack_example :
    multicasts
      (nack_after_frame memory frames hits lib
        (ingress_worker engine config)
        (server_of config flow_group flow_group)
        tx_frame
        []
        nack_frame
        (some listener)
        empty_memory
        tt).calls
    ≡ tx_frame ∷ []
process_frame-process_nack_example =
    process_frame-process_nack memory frames hits config engine flow_group flow_group lib tx_frame
      [] nack_frame listener (record { hash_key = 7; seq_num = 5 }) empty_memory tt refl
      memory-ReadsBack config-Positive memory-Decoders tx_frame-decodes (omega arith) memory-accepts
      nack_frame-valid nack_frame-hash_key nack_frame-start_seq nack_frame-single lets

-- Dependencies of which the group tier refuses.
abbrev flooded : Deps Unit
flooded = record hits { allow_group = λ w a g. (false, w) }

process_nack-refused_example :
    effects (Handler.process_nack lib flooded server nack_frame (some listener) start).1.calls
    ≡ hint lib flooded server (some 4) (some listener) (parse_request nack_frame).start_seq ++ []
process_nack-refused_example =
    process_nack-refused lib flooded server of_group nack_frame (some listener) start
      nack_frame-valid nack_frame-single (refl, refl, (λ tx. 3), refl, tx_frame, (refl, refl))

partition-Perm_example :
    Perm (joined (partition groups (pos 2))) groups × (length (partition groups (pos 2)) ≡ 2)
partition-Perm_example = partition-Perm groups (pos 2)

tx_frame-bare : (true && tee.is_encap tx_frame) ≡ false
unfolding to_be
tx_frame-bare = refl

tx_frame-long : 56 ≤ length tx_frame
unfolding to_be
tx_frame-long = omega arith

queue_index-key_example :
    (queue_index tee tx_frame true 4 ≡ queue_index tee ((0x54 ∷ 0 ∷ 0 ∷ 0 ∷ []) ++ tx_frame) true 4)
    × (queue_index tee tx_frame true 4 < 4)
queue_index-key_example =
    queue_index-key tee tx_frame tx_frame tx_frame ((0x54 ∷ 0 ∷ 0 ∷ 0 ∷ []) ++ tx_frame) true 4
      (omega arith) (Delivers.bare true tx_frame-bare)
      (Delivers.wrapped (0x54 ∷ 0 ∷ 0 ∷ 0 ∷ []) refl refl) tx_frame-long tx_frame-long refl

-- The receiver has put slot 0 on the queue of the only processor.
abbrev submitted : Slots.State
submitted = record {
  free = slots_from 64 3;
  batch = slots_from 1 63;
  waiting = true;
  procs = record { queue = 0 ∷ []; current = none } ∷ [];
}

submitted-Reach : Reach 2 (first_state 2 1) submitted
unfolding first_state slots_from idle_procs weigh
submitted-Reach =
    Reach.next Reach.here
      (Step.submit (slots_from 64 3) [] (slots_from 1 63) [] none [] [] 0 (omega arith))

Reach-NeverBlocks_example : NeverBlocks 2 1 submitted
Reach-NeverBlocks_example = Reach-NeverBlocks 2 1 submitted-Reach
