-- ===== src/Channel/Send.antt =====
-- The write side of asio_channel: send, the bounded write queue, batches, the handler of async_write,
-- close and the timers.
pub mod Batching
pub mod Invariant
use ecs_asio_server.Common.{
  ℕ, ◌+◌, ◌-◌, ◌*◌, ◌%◌, ◌^◌, List, [], ◌∷◌, ◌++◌, Bool, true, false, ◌&&◌, Option, none, some,
  length, ltb, leb, ◌==◌, if◌then◌else◌,
}
use ecs_asio_server.Frame.Codec.{pack, proto_ver}
use ecs_asio_server.Channel.{Channel, CloseFunction, force_closed, write, timeout}

abbrev pub max_queue_bytes : ℕ
max_queue_bytes = 256 * 1024

abbrev pub max_batch_bytes : ℕ
max_batch_bytes = 64 * 1024

abbrev pub max_batch_msgs : ℕ
max_batch_msgs = 64

-- `fetch_add` on a std::uint64_t.
abbrev pub add64 : ℕ → ℕ → ℕ
add64 a b = (a + b) % 2 ^ 64

-- `fetch_sub` on a std::size_t.
abbrev pub sub64 : ℕ → ℕ → ℕ
sub64 a b = (a + 2 ^ 64 - b) % 2 ^ 64

abbrev pub is_force_closed : CloseFunction → Bool
is_force_closed force_closed = true
is_force_closed _ = false

-- The result is false if the channel was closed before.
unfoldable pub close : CloseFunction → Channel → Channel × Bool
close reason c = if c.closed then (c, false) else (
  record c {
    closed = true;
    force_closes = if is_force_closed reason then add64 c.force_closes 1 else c.force_closes;
    close_calls = c.close_calls ++ (reason ∷ []);
  },
  true,
)

unfoldable pub enqueue_send : List ℕ → Channel → Channel × Bool
enqueue_send buffer c =
    let total = add64 c.current_queue_bytes (length buffer) in
    if length buffer == 0
    then (c, true)
    else if ltb max_queue_bytes total
    then (record c { drops = add64 c.drops 1 }, false)
    else (
      record c {
        write_queue = c.write_queue ++ (buffer ∷ []);
        current_queue_bytes = total;
        enq_msgs = add64 c.enq_msgs 1;
        peak_queued = if ltb c.peak_queued total then total else c.peak_queued;
      },
      true,
    )

pub record Batch : Type 0 where
  pub out : List ℕ
  pub out_msgs : ℕ
  pub left : List (List ℕ)

-- The loop of make_batch_, over the queue that is left.
unfoldable pub batch_loop : List (List ℕ) → List ℕ → ℕ → ℕ → Batch
batch_loop [] out acc out_msgs = record { out = out; out_msgs = out_msgs; left = [] }
batch_loop (front ∷ rest) out acc out_msgs =
    let more = batch_loop rest (out ++ front) (acc + length front) (out_msgs + 1) in
    let stop : Batch = record { out = out; out_msgs = out_msgs; left = front ∷ rest } in
    if ltb out_msgs max_batch_msgs
    then if ltb max_batch_bytes (acc + length front) then stop else more
    else stop

unfoldable pub make_batch : List (List ℕ) → Batch
make_batch queue = batch_loop queue [] 0 0

unfoldable pub do_write : Channel → Channel
do_write c =
    let b = make_batch c.write_queue in
    if ltb 0 b.out_msgs
    then record c {
      write_queue = b.left;
      in_flight = some (b.out, b.out_msgs);
      handed = c.handed ++ b.out;
    }
    else record c { writing = false }

-- `if (writing_.compare_exchange_strong(expected, true)) do_write();`
unfoldable pub try_write : Channel → Channel
try_write c = if c.writing then c else do_write (record c { writing = true })

unfoldable pub send : List ℕ → Channel → Channel
send bytes c =
    if c.closed
    then c
    else if length bytes == 0
    then c
    else let (c', fits) = enqueue_send bytes c in
      if fits
      then try_write c'
      else (close force_closed (record c' { force_closes = add64 c'.force_closes 1 })).0

abbrev pub is_empty : List (List ℕ) → Bool
is_empty [] = true
is_empty (x ∷ xs) = false

-- The handler of async_write: an error, which leaves writing_ and the counters as they are, or the bytes
-- and messages written.
unfoldable pub on_write_error : Channel → Channel
on_write_error c = (close write (record c { in_flight = none; failed = c.in_flight })).0

unfoldable pub on_written : ℕ → ℕ → ℕ → Channel → Channel
on_written now n batch_msgs c =
    let c' = record c {
      in_flight = none;
      current_queue_bytes = sub64 c.current_queue_bytes n;
      deq_msgs = add64 c.deq_msgs batch_msgs;
      bytes_sent = add64 c.bytes_sent n;
      last_send_ms = now;
      writing = false;
    } in
    if is_empty c'.write_queue then c' else try_write c'

abbrev pub idle_limit_ms : ℕ
idle_limit_ms = 30 * 1000

-- The handler of the idle timer that ran out; the result says whether the timer is armed again.
unfoldable pub on_idle_timer : ℕ → Channel → Channel × Bool
on_idle_timer now c =
    if c.closed
    then (c, false)
    else if leb idle_limit_ms (sub64 now c.last_recv_ms)
    then ((close timeout c).0, false)
    else (c, true)

unfoldable pub send_ping : Channel → Channel
send_ping c = send (pack (record { cmd = 1; flags = 0; ver = proto_ver; seq = 0; payload = [] })) c

unfoldable pub on_ping_timer : Channel → Channel × Bool
on_ping_timer c = if c.closed then (c, false) else (send_ping c, true)
