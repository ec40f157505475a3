-- ===== src/Tests/Paths.antt =====
-- The proxy, the beacon and its groups, and the egress sockets at concrete inputs.

use retry_endpoint.Beacon
use retry_endpoint.Beacon.{build_advert}
use retry_endpoint.Beacon.Advert.{Reads, IsConfig, build_advert-Reads}
use retry_endpoint.ControlGroup.{
  ScopeName, BeaconScope, Compat, Prefixes, has, beacon_group_prefixes, named_prefixes,
  beacon_scope_names, collect, collect_next, control_group_prefixes, scope_prefixes,
  derived_prefixes, ssm_derived, asm_prefix, both_prefixes, add_all, add_new,
}
use retry_endpoint.ControlGroup.Resolves.{HasPrefixes, Resolved, both_resolves}
use retry_endpoint.ControlGroup.Beacons.{IsDistinct, offered, beacon_group_prefixes-Distinct}
use retry_endpoint.Prelude.{
  ℕ, suc, ◌+◌, ◌≤◌, ◌≡◌, refl, ap, ◌↔◌, ◌==◌, not, true, none, some, List, [], ◌∷◌, arith, length,
  get_or,
}
use retry_endpoint.Prelude.Bytes.{to_be}
use retry_endpoint.Proxy.{nack, accept, claim_key}
use retry_endpoint.Proxy.Claim
use retry_endpoint.Proxy.Claim.{claim_key_iff}
use retry_endpoint.Proxy.Fetch.{IsFirst, accept-IsFirst}
use retry_endpoint.Proxy.Nack.{IsJob, request, nack-parse_request, process_nack-single_hop}
use retry_endpoint.Proxy.Queue.{Op, IsFifo, empty, run, run-IsFifo}
use retry_endpoint.Proxy.Recover
use retry_endpoint.Proxy.Recover.Attempts.{nacks, sends, recover-Adds}
use retry_endpoint.Proxy.Recover.Handovers.{
  handovers, kept, to_group, to_requester, recovered-handovers,
}
use retry_endpoint.Retransmit.Open
use retry_endpoint.Retransmit.Open.{Os, Egress, no_sockets}
use retry_endpoint.Retransmit.Open.Balance.{opens, closes, held}
use retry_endpoint.Retransmit.Open.Leaks
use retry_endpoint.Retransmit.Open.Leaks.{open_sockets-close_sockets}
use retry_endpoint.Server.Calls.{UdpAddr, enqueues}
use retry_endpoint.Server.Handler
use retry_endpoint.Server.Wire.{validate_nack, parse_request}
use retry_endpoint.Tests.Values.{
  lib, lib-InRange, tx_frame, listener, server, misses, start, proxy_config, job, upstream, shard,
  advert,
}

job-IsJob : IsJob job
job-IsJob = record { hash_key_u64 = omega arith; seq_u64 = omega arith; subtree_32 = refl }

nack-parse_request_example :
    (validate_nack lib (nack lib job) ≡ none) × (parse_request (nack lib job) ≡ request job)
nack-parse_request_example = nack-parse_request lib job lib-InRange job-IsJob

process_nack-single_hop_example :
    enqueues (Handler.process_nack lib misses server (nack lib job) (some listener) start).1.calls
    ≡ 0
process_nack-single_hop_example =
    process_nack-single_hop lib job misses server (some listener) start lib-InRange job-IsJob

accept-IsFirst_example :
    (accept lib ((1 ∷ []) ∷ tx_frame ∷ []) ≡ some tx_frame)
    ↔ IsFirst lib ((1 ∷ []) ∷ tx_frame ∷ []) tx_frame
accept-IsFirst_example = accept-IsFirst lib ((1 ∷ []) ∷ tx_frame ∷ []) tx_frame

abbrev flow : ℕ
flow = 7

-- The same address on another link.
abbrev elsewhere : UdpAddr
elsewhere = record listener { zone = 1 ∷ [] }

claim_key_iff_example :
    (claim_key true (Claim.job flow flow [] (some listener))
      ≡ claim_key true (Claim.job flow flow [] (some elsewhere)))
    ↔ ((flow ≡ flow)
        × (flow ≡ flow)
        × (listener.ip ≡ elsewhere.ip)
        × (listener.port ≡ elsewhere.port))
claim_key_iff_example =
    claim_key_iff flow flow flow flow [] [] listener elsewhere (omega arith) (omega arith)
      (omega arith) (omega arith) refl refl (omega arith) (omega arith)

abbrev ops : List Op
ops = Op.submit job ∷ Op.submit job ∷ Op.submit job ∷ Op.receive ∷ Op.submit job ∷ []

run-IsFifo_example :
    IsFifo proxy_config
      (run proxy_config ops record { accepted = []; received = []; queue = empty })
run-IsFifo_example = run-IsFifo proxy_config ops

recover-Adds_example :
    (nacks (Recover.recover lib upstream proxy_config job start).1.calls ≤ 2 + 0)
    × (sends (Recover.recover lib upstream proxy_config job start).1.calls ≤ 2 + 0)
recover-Adds_example = recover-Adds lib upstream proxy_config job start

advert-IsConfig : IsConfig advert
unfolding Beacon.nack_ip
advert-IsConfig = record {
  nack_ip_16 = refl;
  nack_port_u16 = omega arith;
  flags_u16 = omega arith;
  interval_u16 = omega arith;
  instance_id_u32 = omega arith;
}

build_advert-Reads_example : Reads lib advert (build_advert lib (λ ns. 60) advert)
build_advert-Reads_example = build_advert-Reads lib (λ ns. 60) advert lib-InRange advert-IsConfig

abbrev site : List ScopeName
site = ScopeName.site ∷ []

site_names : beacon_scope_names BeaconScope.site ≡ some site
unfolding beacon_scope_names
site_names = refl

site_prefixes :
    beacon_group_prefixes shard true Compat.both BeaconScope.site
    ≡ Prefixes.ok (0xFF05 ∷ 0xFF35 ∷ [])
unfolding beacon_group_prefixes named_prefixes beacon_scope_names collect collect_next
    control_group_prefixes scope_prefixes derived_prefixes ssm_derived asm_prefix both_prefixes
    add_all add_new has
site_prefixes = refl

beacon_group_prefixes-Distinct_example :
    IsDistinct (0xFF05 ∷ 0xFF35 ∷ [])
    × ((q : ℕ) → has q (0xFF05 ∷ 0xFF35 ∷ []) ≡ offered shard true Compat.both site q)
beacon_group_prefixes-Distinct_example =
    beacon_group_prefixes-Distinct shard true Compat.both BeaconScope.site site
      (0xFF05 ∷ 0xFF35 ∷ []) site_names site_prefixes

tx_frame-whole : lib.header_size ≤ length tx_frame
unfolding to_be
tx_frame-whole = omega arith

recovered-handovers_example :
    handovers (Recover.recovered lib upstream proxy_config tx_frame job start).1.calls
    ≡ to_requester lib upstream proxy_config tx_frame
        (some listener)
        (to_group lib upstream proxy_config tx_frame (kept lib upstream proxy_config tx_frame ∷ []))
recovered-handovers_example =
    recovered-handovers lib upstream proxy_config tx_frame job start tx_frame-whole

shard-HasPrefixes : HasPrefixes shard
shard-HasPrefixes ScopeName.link e = absurd (cc e)
shard-HasPrefixes ScopeName.site e = (0xFF35, refl)
shard-HasPrefixes ScopeName.org e = absurd (cc e)
shard-HasPrefixes ScopeName.global e = (0xFF3E, refl)
shard-HasPrefixes ScopeName.other e = absurd (cc e)

both_resolves_example : Resolved (beacon_group_prefixes shard true Compat.both BeaconScope.all)
both_resolves_example =
    both_resolves shard true shard-HasPrefixes BeaconScope.all (λ e. absurd (cc e))

-- System calls that number the descriptors, and refuse the interface with index 9.
abbrev numbered : Os ℕ
numbered = record {
  listen_packet = λ w. (some w, suc w);
  is_udp = λ c. true;
  file = λ w c. (some w, suc w);
  set_multicast_if = λ w fd index. (not (index == 9), w);
  set_multicast_loop = λ w fd. (true, w);
  listen_udp = λ w ip. (some w, suc w);
  close = λ w c. (true, w);
}

abbrev egress : Egress
egress = record {
  ifaces = (record { name = 1 ∷ []; index = 3 }) ∷ (record { name = 2 ∷ []; index = 9 }) ∷ [];
  unicast_src = none;
  multicast_loop = true;
}

egress-IsDistinct : Leaks.IsDistinct egress.ifaces
egress-IsDistinct = ((λ e. omega (arith, ap (λ (xs : List ℕ). get_or xs 0 0) e), tt), (tt, tt))

open_sockets-close_sockets_example :
    let opened = Open.open_sockets numbered egress no_sockets (record { world = 0; calls = [] }) in
    let done = (Open.close_sockets numbered egress opened.0.1 opened.1).1 in
    (opens 0 opened.1.calls ≡ closes 0 opened.1.calls + held 0 opened.0.1)
    × (opens 0 done.calls ≡ closes 0 done.calls)
open_sockets-close_sockets_example =
    open_sockets-close_sockets numbered egress 0 0 egress-IsDistinct
