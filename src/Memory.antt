-- ===== src/Memory.antt =====
-- MintServer/src/MTLibrary/MemoryPool.cpp: one block of memory from which the lists take theirs, and
-- extra blocks when it is used up. The answers of `new` are arguments, 0 where it fails.
pub mod Bounds
pub mod Blocks
use winsock_multi_thread_ser.Base.{
  ℕ, ◌+◌, ◌%◌, Bool, true, false, not, List, [], ◌∷◌, ltb, ◌==◌, if◌then◌else◌, Ptr, null, u32,
}

-- `ExtraBufferNode`, less the link: the chain of nodes is a list.
pub record ExtraBufferNode : Type 0 where
  pub node : Ptr
  pub buffer : Ptr

-- The static members of `PrivateMMP`.
pub record MemoryPool : Type 0 where
  pub buffer : Ptr
  pub buffer_byte_max : ℕ
  pub now_buffer_position_link : Ptr
  pub now_buffer_use_length : ℕ
  pub extra_buffers : List ExtraBufferNode
  pub extra_buffer_size : ℕ

-- Statics start as zero.
abbrev pub initial : MemoryPool
initial = record {
  buffer = null;
  buffer_byte_max = 0;
  now_buffer_position_link = null;
  now_buffer_use_length = 0;
  extra_buffers = [];
  extra_buffer_size = 0;
}

-- `sizeof(ExtraBufferNode)`: two pointers on x64.
abbrev pub extra_node_size : ℕ
extra_node_size = 16

-- `sMemoryPoolCreate`. `new_buffer` is the answer of `new BYTE[byte_max]`.
unfoldable pub s_memory_pool_create : Ptr → ℕ → MemoryPool → MemoryPool × Bool
s_memory_pool_create new_buffer byte_max p =
    if new_buffer == null
    then (record p { buffer_byte_max = byte_max; buffer = null }, false)
    else (
      record p {
        buffer_byte_max = byte_max;
        buffer = new_buffer;
        now_buffer_position_link = new_buffer;
        now_buffer_use_length = 0;
      },
      true,
    )

-- The branch of `sMemoryAllocate` for a pool that is used up.
allocate_extra : Ptr → Ptr → ℕ → MemoryPool → MemoryPool × Ptr
allocate_extra new_buffer new_node byte_max p =
    if new_buffer == null then (p, null) else if new_node == null then (p, null) else (
      record p {
        extra_buffer_size = (p.extra_buffer_size + (extra_node_size + byte_max)) % u32;
        extra_buffers = record { node = new_node; buffer = new_buffer } ∷ p.extra_buffers;
      },
      new_buffer,
    )

-- `sMemoryAllocate`. The sum of the test is taken in 32 bits.
unfoldable pub s_memory_allocate : Ptr → Ptr → ℕ → MemoryPool → MemoryPool × Ptr
unfolding allocate_extra
s_memory_allocate new_buffer new_node byte_max p =
    if ltb p.buffer_byte_max ((p.now_buffer_use_length + byte_max) % u32)
    then allocate_extra new_buffer new_node byte_max p
    else (
      record p {
        now_buffer_position_link = p.now_buffer_position_link + byte_max;
        now_buffer_use_length = (p.now_buffer_use_length + byte_max) % u32;
      },
      p.now_buffer_position_link,
    )

-- `sMemoryPoolRelease`: both halves, each under its test. The chain is walked to its end.
unfoldable pub s_memory_pool_release : MemoryPool → MemoryPool
s_memory_pool_release p =
    let q : MemoryPool =
      (if p.buffer == null then p else record p {
        buffer = null;
        now_buffer_position_link = null;
        buffer_byte_max = 0;
        now_buffer_use_length = 0;
      }) in
    record q { extra_buffers = [] }

-- `sCheckMemoryPoolCreate`, `sGetMaxMemoryPoolBytes`, `sGetUseMemoryPoolBytes` and
-- `sGetExtraUseMemoryPoolBytes`.
unfoldable pub s_check_memory_pool_create : MemoryPool → Bool
s_check_memory_pool_create p = not (p.buffer == null)

unfoldable pub s_get_max_memory_pool_bytes : MemoryPool → ℕ
s_get_max_memory_pool_bytes p = p.buffer_byte_max

unfoldable pub s_get_use_memory_pool_bytes : MemoryPool → ℕ
s_get_use_memory_pool_bytes p = p.now_buffer_use_length

unfoldable pub s_get_extra_use_memory_pool_bytes : MemoryPool → ℕ
s_get_extra_use_memory_pool_bytes p = p.extra_buffer_size
