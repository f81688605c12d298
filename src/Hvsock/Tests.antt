-- ===== src/Hvsock/Tests.antt =====
-- Concrete addresses, connections and dials, and the theorems on them.
use go_winio.Base.{
  ℕ, ◌+◌, ◌-◌, ◌≤◌, ◌<◌, ◌≡◌, refl, sym, ap, ◌∙◌, arith, List, [], ◌∷◌, ◌++◌, length, take, leb,
  ltb, if◌then◌else◌, true, false, Option, none, some, ok, err,
}
use go_winio.Guid.Arrays.{InRange}
use go_winio.Hvsock.{
  HvsockAddr, RawHvsockAddr, hvsock_guid_loopback, vsock_service_template, vsock_service_id, raw,
  from_raw, raw_bytes, from_bytes, overlaid, buffer_size,
}
use go_winio.Hvsock.Address.{from_bytes-raw_bytes}
use go_winio.Hvsock.Conn.{SocketOps, ConnError, write}
use go_winio.Hvsock.Conn.WriteAll.{IsSocket, write_all}
use go_winio.Hvsock.Dial.{SocketCalls, dial, listen_hvsock, accept}
use go_winio.Hvsock.Dial.Sockets.{Counts, Accounted, sockets_counted}
use go_winio.File.{FileError}

abbrev loopback_port : HvsockAddr
loopback_port = record { vm_id = hvsock_guid_loopback; service_id = vsock_service_id 5000 }

loopback-InRange : InRange loopback_port.vm_id
unfolding hvsock_guid_loopback
loopback-InRange = omega arith

port-InRange : InRange loopback_port.service_id
unfolding vsock_service_id vsock_service_template
port-InRange = omega arith

from_bytes-raw_bytes_example :
    (r : RawHvsockAddr) × (from_bytes (raw_bytes (raw loopback_port) ++ (1 ∷ [])) ≡ ok r)
    × (from_raw r ≡ loopback_port)
from_bytes-raw_bytes_example =
    from_bytes-raw_bytes loopback_port (1 ∷ []) loopback-InRange port-InRange

short_address : from_bytes (34 ∷ 0 ∷ []) ≡ err buffer_size
unfolding from_bytes overlaid
short_address = refl

-- A socket that takes two bytes at a time.
abbrev at_most_two : List ℕ → ℕ
at_most_two b = if leb (length b) 2 then length b else 2

abbrev slow_ops : SocketOps (List ℕ)
slow_ops = record {
  closing = λ s. false;
  receive = λ s room. ([], none, s);
  send = λ s b. (at_most_two b, none, s ++ take (at_most_two b) b);
}

abbrev Sent : Type 0
Sent = ℕ × Option FileError × List ℕ

slow_sends :
    (s s' b : List ℕ) (n : ℕ)
    → 0 < length b
    → slow_ops.send s b ≡ (n, none, s')
    → (0 < n) × (n ≤ length b) × (s' ≡ s ++ take n b)
slow_sends s s' b n h e =
    let p : at_most_two b ≡ n = ap (λ (x : Sent). x.0) e in
    (ground arith, ground arith, sym (ap (λ (x : Sent). x.2) e) ∙ ap (λ (k : ℕ). s ++ take k b) p)

slow_fails :
    (s s' b : List ℕ) (n : ℕ) (x : FileError)
    → slow_ops.send s b ≡ (n, some x, s')
    → (k : ℕ) × (k ≤ length b) × (s' ≡ s ++ take k b)
slow_fails s s' b n x e = cc

slow_ops-IsSocket : IsSocket slow_ops (λ s. s)
slow_ops-IsSocket = record { sends = slow_sends; fails = slow_fails }

write_all_example :
    (n m : ℕ) × (e : Option ConnError) × (s' : List ℕ) × (write slow_ops [] (1 ∷ 2 ∷ 3 ∷ [])
      ≡ some ((n, e), s'))
    × (n ≤ m)
    × (m ≤ 3)
    × (e ≡ none → n ≡ 3)
    × (s' ≡ [] ++ take m (1 ∷ 2 ∷ 3 ∷ []))
write_all_example = write_all slow_ops (λ s. s) slow_ops-IsSocket [] (1 ∷ 2 ∷ 3 ∷ []) (omega arith)

-- A system that refuses a number of connections.
record World : Type 0 where
  sockets : ℕ
  attempts : ℕ
  refusals : ℕ

abbrev refuse : World → Option ℕ
refuse w = if ltb 0 w.refusals then some 10061 else none

abbrev world_calls : SocketCalls World
world_calls = record {
  ctx_err = λ w. none;
  socket = λ w. (none, record w { sockets = w.sockets + 1 });
  make_file = λ w. (none, w);
  close = λ w. record w { sockets = w.sockets - 1 };
  bind = λ w. (none, w);
  prepare_io = λ w. (none, w);
  connect_ex = λ w. (refuse w, record w { attempts = w.attempts + 1; refusals = w.refusals - 1 });
  accept_ex = λ w. (none, w);
  listen = λ w. (some 5, w);
  set_sock_opt = λ w. (none, w);
  get_sock_name = λ w. (none, w);
  wait = λ w. (true, w);
}

world_opens : (w w' : World) → world_calls.socket w ≡ (none, w') → w'.sockets ≡ w.sockets + 1
world_opens w w' e = sym (ap (λ (x : Option ℕ × World). x.1.sockets) e)

world_calls-Counts : Counts world_calls (λ w. w.sockets) (λ w. w.attempts)
world_calls-Counts = record {
  opens = world_opens;
  opens_none = λ w w' x e. cc;
  socket_attempts = λ w. refl;
  closes = λ w h. omega arith;
  close_attempts = λ w. refl;
  connects = λ w. (refl, refl);
  others = λ w. omega arith;
}

abbrev refusing : World
refusing = record { sockets = 2; attempts = 0; refusals = 1 }

sockets_counted_example :
    Accounted world_calls
      (λ w. w.sockets)
      (λ w. w.attempts)
      world_calls-Counts
      (3 + 1)
      refusing
      (dial world_calls true 3 refusing)
    × Accounted world_calls
        (λ w. w.sockets)
        (λ w. w.attempts)
        world_calls-Counts
        0
        refusing
        (listen_hvsock world_calls refusing)
    × Accounted world_calls
        (λ w. w.sockets)
        (λ w. w.attempts)
        world_calls-Counts
        0
        refusing
        (accept world_calls refusing)
sockets_counted_example =
    sockets_counted world_calls (λ w. w.sockets) (λ w. w.attempts) world_calls-Counts true 3
      refusing
