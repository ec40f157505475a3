-- ===== src/Proxy/Nack.antt =====
-- The NACK of the proxy (proxy/proxy.go, `fetch`) at the server of an upstream endpoint
-- (server/server.go).

use retry_endpoint.Frames.{FrameLib, InRange}
use retry_endpoint.Prelude.{
  ◌^◌, ◌<◌, ◌≡◌, ap, subst, true, Option, none, arith, length, take, take-length,
}
use retry_endpoint.Prelude.Bytes.{to_be, be-to_be}
use retry_endpoint.Proxy.{Job, nack}
use retry_endpoint.Server.Calls
use retry_endpoint.Server.Calls.{UdpAddr, Deps, enqueues}
use retry_endpoint.Server.Handler
use retry_endpoint.Server.Handler.{Server}
use retry_endpoint.Server.OneHop.{process_nack-enqueues}
use retry_endpoint.Server.Wire.{Request, validate_nack, parse_request}

-- The field widths of a job.
pub record IsJob (j : Job) : Type 0 where
  pub hash_key_u64 : j.hash_key < 256 ^ 8
  pub seq_u64 : j.seq < 256 ^ 8
  pub subtree_32 : length j.subtree ≡ 32

-- The request that a job stands for.
abbrev pub request : Job → Request
request j = record {
  proxied = true;
  hash_key = j.hash_key;
  start_seq = j.seq;
  end_seq = j.seq;
  subtree_id = j.subtree;
}

module _ (lib : FrameLib) (j : Job) where
  nack-valid : InRange lib → IsJob j → validate_nack lib (nack lib j) ≡ none
  unfolding validate_nack nack to_be
  nack-valid ir ij = ground (arith, be-to_be 4 lib.magic ir.magic_u32, ij.subtree_32)

  -- The datagram that the proxy builds for a job passes the server's validation, and the server
  -- reads from it a proxied request for exactly the job's frame and subtree.
  pub nack-parse_request :
      InRange lib
      → IsJob j
      → (validate_nack lib (nack lib j) ≡ none) × (parse_request (nack lib j) ≡ request j)
  unfolding parse_request nack to_be
  nack-parse_request ir ij = (nack-valid ir ij, fields)
    where
      fields : parse_request (nack lib j) ≡ request j
      fields = λ i. record {
        proxied = true;
        hash_key = be-to_be 8 j.hash_key ij.hash_key_u64 i;
        start_seq = be-to_be 8 j.seq ij.seq_u64 i;
        end_seq = be-to_be 8 j.seq ij.seq_u64 i;
        subtree_id =
            subst (λ n. take n j.subtree ≡ j.subtree) ij.subtree_32 (take-length j.subtree) i;
      }

  -- An endpoint that gets a proxied NACK never proxies it again, whatever it finds in its cache and
  -- whatever its own configuration is.
  pub process_nack-single_hop :
      {W : Type 0} (deps : Deps W) (s : Server) (src : Option UdpAddr) (r : Calls.Run W)
      → InRange lib
      → IsJob j
      → enqueues (Handler.process_nack lib deps s (nack lib j) src r).1.calls ≡ enqueues r.calls
  process_nack-single_hop deps s src r ir ij =
      let read = ap (λ q. q.proxied) (nack-parse_request ir ij).1 in
      ground (arith, process_nack-enqueues lib deps s (nack lib j) src r, read)
