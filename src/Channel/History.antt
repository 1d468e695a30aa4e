-- ===== src/Channel/History.antt =====
-- The life of a channel as steps: each is a call from the server, a timer, or a completion that asio
-- reports, in any order.
pub mod Accounts
pub mod Closing
pub mod Order
pub mod Idle
pub mod Stall
pub mod Drain
use ecs_asio_server.Common.{ℕ, ◌^◌, ◌<◌, ◌≡◌, List, length, Option, some}
use ecs_asio_server.Channel.{Channel, CloseFunction}
use ecs_asio_server.Channel.Receive.{on_read}
use ecs_asio_server.Channel.Send.{
  send, close, on_written, on_write_error, on_idle_timer, on_ping_timer,
}

-- `size` is an int in `send`; a write is reported with the bytes of the buffer that async_write was
-- given, or as failed, once.
pub data Step (c : Channel) : Channel → Type 0 where
  sends : (bytes : List ℕ) → length bytes < 2 ^ 31 → Step c (send bytes c)
  reads : (chunk : List ℕ) → Step c (on_read chunk c)
  reports :
      (now msgs : ℕ) (bytes : List ℕ)
      → c.in_flight ≡ some (bytes, msgs)
      → Step c (on_written now (length bytes) msgs c)
  fails : (b : List ℕ × ℕ) → c.in_flight ≡ some b → Step c (on_write_error c)
  closes : (reason : CloseFunction) → Step c (close reason c).0
  idles : (now : ℕ) → Step c (on_idle_timer now c).0
  pings : Step c (on_ping_timer c).0

pub data Reach (s : Channel) : Channel → Type 0 where
  here : Reach s s
  next : {c d : Channel} → Reach s c → Step c d → Reach s d
