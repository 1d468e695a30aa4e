-- ===== src/Tests/Channel.antt =====
-- Histories of a channel at concrete inputs.
use ecs_asio_server.Common.{
  ℕ, ◌≡◌, refl, ap, ◌∙◌, List, [], ◌∷◌, ◌++◌, append-nil, true, false, some, flat, length, take,
  drop, length-append, take-append-drop, arith,
}
use ecs_asio_server.Tests.Long.{zeros}
use ecs_asio_server.Frame.Codec.{Message, pack, try_parse_one}
use ecs_asio_server.Frame.Codec.Steps.{Fits, length-pack}
use ecs_asio_server.Channel.{Channel, start, fresh, timeout}
use ecs_asio_server.Channel.Receive.{
  read_all, on_read, parse_frames, after_loop, compact, parse_loop,
}
use ecs_asio_server.Channel.Receive.Loop.{EndsWithin, parse_loop-EndsWithin}
use ecs_asio_server.Channel.Receive.Frames.{packs}
use ecs_asio_server.Channel.Receive.Stream.{Pending, read_all-packs}
use ecs_asio_server.Channel.Send.{
  send, close, enqueue_send, make_batch, do_write, try_write, batch_loop, on_idle_timer,
}
use ecs_asio_server.Channel.Send.Batching.{Takes, make_batch-Takes}
use ecs_asio_server.Channel.Send.Invariant.{Inv}
use ecs_asio_server.Channel.History.{Reach, sends, reads, idles, here, next}
use ecs_asio_server.Channel.History.Accounts.{start-Inv, Reach-Inv}
use ecs_asio_server.Channel.History.Closing.{ClosedOnce, Reach-ClosedOnce}
use ecs_asio_server.Channel.History.Idle.{idle_closes_active}
use ecs_asio_server.Channel.History.Order.{stream, adds_all, Reach-stream}
use ecs_asio_server.Channel.History.Drain.{Drained, reports_in_turn, reports_in_turn-Drained}
use ecs_asio_server.Channel.History.Stall.{Stalled, send_long-Stalled}

abbrev hello : Message
hello = record { cmd = 3; flags = 0; ver = 1; seq = 9; payload = 104 ∷ 105 ∷ [] }

abbrev bye : Message
bye = record { cmd = 4; flags = 0; ver = 1; seq = 10; payload = [] }

hello-Fits : Fits hello
hello-Fits = record {
  cmd = omega arith;
  seq = omega arith;
  bytes = (omega arith, (omega arith, tt));
  room = omega arith;
}

bye-Fits : Fits bye
bye-Fits = record { cmd = omega arith; seq = omega arith; bytes = tt; room = omega arith }

abbrev sent : List ℕ
sent = packs (hello ∷ bye ∷ [])

-- Two frames that come in with three reads, cut within the first and the second.
abbrev reads_cut : List (List ℕ)
reads_cut = take 5 sent ∷ take 20 (drop 5 sent) ∷ drop 20 (drop 5 sent) ∷ []

reads_cut-flat : flat reads_cut ≡ sent
reads_cut-flat =
    ap (λ x. take 5 sent ++ (take 20 (drop 5 sent) ++ x)) (append-nil (drop 20 (drop 5 sent)))
    ∙ ap (◌++◌ (take 5 sent)) (take-append-drop 20 (drop 5 sent))
    ∙ take-append-drop 5 sent

abbrev started : Channel
started = start 1000 fresh

started-Pending : Pending started []
unfolding start
started-Pending = record { front = []; acc = refl; offset = refl }

read_all-packs_example :
    ((read_all reads_cut started).delivered
      ≡ started.delivered ++ ((3, 104 ∷ 105 ∷ []) ∷ (4, []) ∷ []))
    × ((read_all reads_cut started).drops ≡ started.drops)
unfolding start
read_all-packs_example =
    read_all-packs reads_cut started [] (hello ∷ bye ∷ []) started-Pending
      (omega (arith, length-pack hello)) reads_cut-flat (hello-Fits, (bye-Fits, tt)) (omega arith)
      (omega (
        arith,
        ap length reads_cut-flat,
        length-append (pack hello) (packs (bye ∷ [])),
        length-append (pack bye) [],
        length-pack hello,
        length-pack bye,
      ))

parse_loop-EndsWithin_example : EndsWithin 3 1 (parse_loop 3 (1 ∷ 2 ∷ 3 ∷ []) 1 [] 0)
parse_loop-EndsWithin_example =
    parse_loop-EndsWithin 3 (1 ∷ 2 ∷ 3 ∷ []) 1 [] 0 (omega arith) (omega arith) (omega arith)

-- Two messages are sent, a read comes in and the idle timer runs out.
abbrev ended : Channel
ended = (on_idle_timer 31000 (on_read (7 ∷ []) (send (3 ∷ []) (send (1 ∷ 2 ∷ []) started)))).0

abbrev history : Reach started ended
history =
    next
      (next (next (next here (sends (1 ∷ 2 ∷ []) (omega arith))) (sends (3 ∷ []) (omega arith)))
        (reads (7 ∷ [])))
      (idles 31000)

Reach-stream_example : ended.handed ++ flat ended.write_queue ≡ stream started ++ adds_all history
Reach-stream_example = Reach-stream history (start-Inv 1000)

Reach-Inv_example : Inv ended
Reach-Inv_example = Reach-Inv 1000 history

Reach-ClosedOnce_example : ClosedOnce ended
Reach-ClosedOnce_example = Reach-ClosedOnce 1000 history

-- The first message goes out and the second waits.
sent_history : (send (3 ∷ []) (send (1 ∷ 2 ∷ []) started)).handed ≡ 1 ∷ 2 ∷ []
unfolding send enqueue_send try_write do_write make_batch batch_loop start
sent_history = refl

ended_history : ended.close_calls ≡ timeout ∷ []
unfolding on_idle_timer close on_read parse_frames after_loop parse_loop compact try_parse_one send
    enqueue_send try_write do_write make_batch batch_loop start
ended_history = refl

idle_closes_active_example :
    ((on_idle_timer 31000 (on_read (7 ∷ []) started)).0.closed ≡ true)
    × ((on_idle_timer 31000 (on_read (7 ∷ []) started)).0.close_calls
        ≡ (on_read (7 ∷ []) started).close_calls ++ (timeout ∷ []))
    × ((on_idle_timer 31000 (on_read (7 ∷ []) started)).1 ≡ false)
unfolding on_read parse_frames after_loop parse_loop compact try_parse_one start
idle_closes_active_example =
    idle_closes_active 1000 31000 (next here (reads (7 ∷ []))) refl (omega arith) (omega arith)

make_batch-Takes_example : Takes ((1 ∷ []) ∷ (2 ∷ []) ∷ []) (make_batch ((1 ∷ []) ∷ (2 ∷ []) ∷ []))
make_batch-Takes_example = make_batch-Takes ((1 ∷ []) ∷ (2 ∷ []) ∷ [])

-- A write of one byte is in flight and two messages are queued.
abbrev busy : Channel
busy = record fresh {
  writing = true;
  write_queue = (1 ∷ 2 ∷ []) ∷ (3 ∷ []) ∷ [];
  current_queue_bytes = 4;
  in_flight = some (0 ∷ [], 1);
  handed = 0 ∷ [];
}

reports_in_turn-Drained_example : Drained busy (reports_in_turn 5 3 busy)
reports_in_turn-Drained_example =
    reports_in_turn-Drained 5 3 busy (omega arith, (omega arith, tt)) (λ e. absurd cc) (omega arith)

many : (xs : List ℕ) × (length xs ≡ 70000)
many = zeros (70000)

send_long-Stalled_example : Stalled many.0 started (send many.0 started)
unfolding start
send_long-Stalled_example =
    send_long-Stalled many.0 started (omega (arith, many.1)) (omega (arith, many.1)) refl refl refl
      refl refl here
