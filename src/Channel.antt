-- ===== src/Channel.antt =====
-- server/network/asio_channel.hpp and asio_channel.cpp: one connection. The server runs its io_context
-- on one thread, so the handlers of a channel run one after the other, and each is a function from
-- state to state; the atomics are plain fields.
pub mod Receive
pub mod Send
pub mod History
use ecs_asio_server.Common.{ℕ, List, Bool, false, Option, none, []}

-- common/network/close_function.hpp
pub data CloseFunction : Type 0 where
  none_given write read timeout protocol_error remote_closed force_closed : CloseFunction

pub record Channel : Type 0 where
  pub closed : Bool
  pub writing : Bool
  pub write_queue : List (List ℕ)
  pub current_queue_bytes : ℕ
  pub enq_msgs : ℕ
  pub deq_msgs : ℕ
  pub drops : ℕ
  pub force_closes : ℕ
  pub bytes_sent : ℕ
  pub peak_queued : ℕ
  pub last_recv_ms : ℕ
  pub last_send_ms : ℕ
  pub frame_acc : List ℕ
  pub frame_acc_offset : ℕ
  -- What the channel has done to the outside: the buffer and the message count of the async_write
  -- that has not been reported yet, those of one that was reported to have failed, all the bytes handed
  -- to async_write, the reasons that on_close was called with, and the command and payload of each call
  -- of on_frame_.
  pub in_flight : Option (List ℕ × ℕ)
  pub failed : Option (List ℕ × ℕ)
  pub handed : List ℕ
  pub close_calls : List CloseFunction
  pub delivered : List (ℕ × List ℕ)

-- `start()` sets these fields and leaves the write queue, the drops and the forced closes alone.
unfoldable pub start : ℕ → Channel → Channel
start now c = record c {
  closed = false;
  writing = false;
  frame_acc = [];
  frame_acc_offset = 0;
  current_queue_bytes = 0;
  peak_queued = 0;
  enq_msgs = 0;
  deq_msgs = 0;
  bytes_sent = 0;
  last_recv_ms = now;
  last_send_ms = now;
}

-- A channel as the constructor leaves it.
abbrev pub fresh : Channel
fresh = record {
  closed = false;
  writing = false;
  write_queue = [];
  current_queue_bytes = 0;
  enq_msgs = 0;
  deq_msgs = 0;
  drops = 0;
  force_closes = 0;
  bytes_sent = 0;
  peak_queued = 0;
  last_recv_ms = 0;
  last_send_ms = 0;
  frame_acc = [];
  frame_acc_offset = 0;
  in_flight = none;
  failed = none;
  handed = [];
  close_calls = [];
  delivered = [];
}
