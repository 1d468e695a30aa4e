-- ===== src/Buffers/PacketBuffer.antt =====
-- common/core/packet_buffer.cpp. A std::int32_t is its value: the calls that are given a negative size or
-- offset are left out, but for the early returns. `grown` is what std::vector chooses.
pub mod Append
use ecs_asio_server.Common.{
  ℕ, ◌+◌, ◌-◌, ◌%◌, ◌^◌, ◌≡◌, List, [], ◌∷◌, Bool, true, false, Option, none, some, length, ltb,
  leb, ◌==◌, if◌then◌else◌,
}
use ecs_asio_server.Buffers.Vector as Vector
use ecs_asio_server.Buffers.Vector.{Vector, Memory, empty_vector, clear, overwrite, poke}

-- data_option is its number; external_buffer is an address, 0 for nullptr.
pub record PacketBuffer : Type 0 where
  pub dynamic_buffer : Vector
  pub external_buffer : ℕ
  pub size : ℕ
  pub offset : ℕ
  pub option : ℕ
  pub is_dynamic : Bool
  pub is_owner : Bool

unfoldable pub no_buffer : PacketBuffer
no_buffer = record {
  dynamic_buffer = empty_vector;
  external_buffer = 0;
  size = 0;
  offset = 0;
  option = 0;
  is_dynamic = false;
  is_owner = false;
}

unfoldable pub external : ℕ → ℕ → ℕ → ℕ → PacketBuffer → PacketBuffer
external buffer offset size option p = record {
  dynamic_buffer = clear p.dynamic_buffer;
  external_buffer = buffer;
  size = size;
  offset = offset;
  option = option;
  is_dynamic = false;
  is_owner = false;
}

unfoldable pub reset : PacketBuffer → PacketBuffer
reset p = record {
  dynamic_buffer = clear p.dynamic_buffer;
  external_buffer = 0;
  size = 0;
  offset = 0;
  option = 0;
  is_dynamic = false;
  is_owner = false;
}

unfoldable pub copy : PacketBuffer → PacketBuffer
copy other = record {
  dynamic_buffer = other.dynamic_buffer;
  external_buffer = other.external_buffer;
  size = other.size;
  offset = other.offset;
  option = other.option;
  is_dynamic = other.is_dynamic;
  is_owner = other.is_owner;
}

-- The new buffer, and what is left of the other: its vector is empty, its option stays.
unfoldable pub move : PacketBuffer → PacketBuffer × PacketBuffer
move other = (
  copy other,
  record other {
    dynamic_buffer = empty_vector;
    external_buffer = 0;
    size = 0;
    offset = 0;
    is_dynamic = false;
    is_owner = false;
  },
)

unfoldable pub set_offset : ℕ → PacketBuffer → PacketBuffer
set_offset offset p = if leb offset p.size then record p { offset = offset } else p

-- `size_ - offset_`, as the pattern of an int.
unfoldable pub remaining_size : PacketBuffer → ℕ
remaining_size p = (p.size + 2 ^ 32 - p.offset) % 2 ^ 32

unfoldable pub capacity : PacketBuffer → ℕ
capacity p = if p.is_dynamic then p.dynamic_buffer.capacity else p.size

abbrev shrunk : ℕ → PacketBuffer → PacketBuffer
shrunk size p = record p { size = size; offset = if ltb size p.offset then size else p.offset }

-- `std::max`
abbrev pub at_least : ℕ → ℕ → ℕ
at_least a b = if ltb a b then b else a

module _ (grown : ℕ → ℕ → ℕ) where
  unfoldable pub dynamic : ℕ → ℕ → PacketBuffer
  dynamic initial_capacity option = record {
    dynamic_buffer = Vector.reserve grown initial_capacity empty_vector;
    external_buffer = 0;
    size = initial_capacity;
    offset = 0;
    option = option;
    is_dynamic = true;
    is_owner = true;
  }

  unfoldable pub set_dynamic : ℕ → ℕ → PacketBuffer → PacketBuffer
  set_dynamic initial_capacity option p = record {
    dynamic_buffer = Vector.reserve grown initial_capacity (clear p.dynamic_buffer);
    external_buffer = 0;
    size = initial_capacity;
    offset = 0;
    option = option;
    is_dynamic = true;
    is_owner = true;
  }

  -- none for the exception.
  unfoldable pub ensure_capacity : ℕ → PacketBuffer → Option PacketBuffer
  ensure_capacity required_size p =
      if p.is_dynamic
      then some (record p { dynamic_buffer = Vector.reserve grown required_size p.dynamic_buffer })
      else if ltb p.size required_size
      then none
      else some p

  -- The memcpy of append and what follows it, in the vector or in the memory.
  unfoldable pub write : List ℕ → PacketBuffer → Memory → PacketBuffer × Memory
  write bytes p memory =
      let offset = p.offset + length bytes in
      let v = record p.dynamic_buffer {
        elements = overwrite p.offset bytes p.dynamic_buffer.elements;
      } in
      if p.is_dynamic
      then (
        record p {
          offset = offset;
          dynamic_buffer =
              Vector.resize grown (at_least offset (length p.dynamic_buffer.elements)) v;
        },
        memory,
      )
      else (record p { offset = offset }, poke (p.external_buffer + p.offset) bytes memory)

  abbrev pub written : List ℕ → Memory → Option PacketBuffer → Option (PacketBuffer × Memory)
  written bytes memory none = none
  written bytes memory (some p) = some (write bytes p memory)

  -- none for the exception, and for an `offset_ + length` that a std::int32_t does not hold, which the
  -- source does not define.
  unfoldable pub append : List ℕ → PacketBuffer → Memory → Option (PacketBuffer × Memory)
  append bytes p memory =
      if length bytes == 0
      then some (p, memory)
      else if leb (2 ^ 31) (p.offset + length bytes)
      then none
      else written bytes memory (ensure_capacity (p.offset + length bytes) p)

  unfoldable pub reserve : ℕ → PacketBuffer → PacketBuffer
  reserve n p =
      if p.is_dynamic
      then record p { dynamic_buffer = Vector.reserve grown n p.dynamic_buffer }
      else p

  unfoldable pub resize : ℕ → PacketBuffer → PacketBuffer
  resize size p =
      if p.is_dynamic
      then shrunk size (record p { dynamic_buffer = Vector.resize grown size p.dynamic_buffer })
      else if leb size p.size
      then shrunk size p
      else p
