-- ===== src/Lib.antt =====
-- ecs_asio_server: the game server, from the bytes of its connections to the handlers of its requests.
--
-- The server talks to its clients over TCP. A connection is an asio_channel: its reads collect bytes,
-- cut frames from them and hand each frame's command and payload to a callback; its writes go through
-- a bounded queue that is sent in batches. The payloads are the messages of common/protocol. The game
-- behind it keeps its objects as entities with components.
--
-- What is modelled, and where (paths are from the repository's root):
-- - Wire: the readers and writers of common/protocol/protocol_base.hpp (write_le32 to
--   read_lp_string). A parser is a function from the bytes between `p` and `end` to a value and the
--   bytes left, a return of false (`reject`) or a read past `end` (`fault`), which the source does not
--   define. A byte is a natural number; the theorems say where it must be below 256.
-- - Protocol: one record for each struct of common/protocol/protocol_*.hpp, with its serialize() and
--   parse(); Protocol/GuildInfo holds guild_info_res and guild_member_info, and Protocol/Lists the
--   structs with a list. A float field is the bit pattern that memcpy copies. Protocol/Requests gathers
--   the parsers of the requests, and Protocol/Messages the messages of all the headers.
-- - Frame: common/network/frame_codec.hpp. Frame/Crc is crc32, Frame/Codec is pack and try_parse_one.
--   Sizes and offsets are 64 bits wide and the length field 32 bits.
-- - Channel: server/network/asio_channel.cpp. Channel/Receive is do_read and parse_frames_,
--   Channel/Send is send, enqueue_send_, make_batch_, do_write, close and the timers, and
--   Channel/History puts them together as the steps of a connection's life.
-- - Ecs: the entity identifiers of server/game/ecs/entity.cpp, ComponentStore of
--   server/game/ecs/component.hpp, and the components of server/game/components/health.hpp and
--   game_object.hpp. Ecs/Systems is the SystemManager of server/game/ecs/system.cpp. A std::uint32_t
--   wraps at 2 ^ 32; an unordered_map or unordered_set is a list, whose order no theorem uses.
-- - Game: the server behind the network, as it is built without MySQL and Redis, but for
--   Game/Persistence. Game/World is the state of server/game/game_server.hpp with the GameService,
--   Game/Net its sends and broadcasts with the lock mtx_, Game/Guilds and Game/Players the handlers of
--   server/game/handlers, and Game/Server the dispatcher of common/network/message_dispatcher.hpp with
--   the handlers that init binds. Game/Combat and Game/Maps are server/game/systems/combat_system.cpp
--   and map_system.cpp, Game/Ai and Game/Movement ai_system.cpp and movement_system.cpp of that
--   directory, with the operations on floats of Game/Floats. Game/Threads is server/game/threading, its
--   Monsters the monsters of a map. Game/Persistence is the server built with MySQL: the logins, the
--   saves at a close and the flushes of server/game/game_server.cpp and handlers/player_handlers.cpp, as
--   jobs for the database, and with Redis in Game/Persistence/Sessions, the session token of a login.
-- - Buffers: common/core/packet_buffer.cpp, over vectors and a memory of addresses.
-- - Database: the attempts of server/db/dao/player_dao.cpp, the records of server/db/failure_sink.cpp,
--   the pool of server/db/db_connection.cpp with the DbConnection variables, and
--   server/db/redis_client.cpp; what MySQL and hiredis answer is a parameter.
-- - Client: client/game_bot.cpp, but for what it prints.
-- - Tests: runs at concrete inputs, and each theorem at one where its conditions hold.
--
-- Choices:
-- - main.cpp runs the io_context on one thread, so the handlers of a channel run one after the other and
--   its atomics are plain fields; sends from other threads are not modelled. In do_write,
--   asio::buffer(buffer) is taken to be evaluated before the capture moves the buffer; the language
--   leaves that order open.
-- - The loop of parse_frames_ runs on fuel, a round for each byte of the accumulator and one more.
--   Each round but the last passes at least the sixteen bytes of a header.
-- - What asio does is in the steps: a read brings any bytes, a write is reported in full or fails, and
--   the timers run out at any time. The callbacks on_frame_ and on_close are recorded as lists of
--   calls; what they call on the channel is a step of its own.
-- - A handler that locks mtx_ a second time in its thread does not return: its result is none. A send
--   under mtx_ does so when it closes the channel, since on_close locks mtx_.
-- - The threads of the maps share with the handlers the queues of packets and the entities, which
--   mutexes guard; each operation under a mutex is one step, and a monster that a map spawns is an event
--   of Game/Server between two calls. A task is a closure in the source and a value
--   that says which in the model.
-- - The operations on floats, the random numbers, the order that std::sort leaves open, the capacities
--   of std::vector, the text of std::snprintf and the answers of the database are parameters.
-- - A job of the database is a value that says what its closure captured; a theorem is about what is
--   posted and about one run of a job, not about the order in which the threads of the pool run the
--   jobs.
-- - The loop of frames of the bot runs on the fuel of the channel's.
-- - A pointer that passes `end` without a read is a fault too.
--
-- Not modelled: the sockets, the log output, the stats timer (it prints), the
-- Redis cache of the players, stop and on_tick of the server, the tasks and the loop of a map's thread,
-- the memory pool, Transaction and DbManager, the configuration, the clients but the bot, and the copies
-- of other projects under third_party.
pub mod Buffers
pub mod Channel
pub mod Client
pub mod Common
pub mod Database
pub mod Ecs
pub mod Frame
pub mod Game
pub mod Protocol
pub mod Tests
pub mod Wire
