-- ===== src/Memory/Bounds.antt =====
-- Single requests to the memory pool: its invariant, where a block lies, and what wraps.
use winsock_multi_thread_ser.Base.{ℕ, ◌+◌, ◌≤◌, ◌<◌, ◌≡◌, ◌≢◌, false, [], arith, Ptr, null, u32}
use winsock_multi_thread_ser.Memory.{
  MemoryPool, s_memory_pool_create, s_memory_allocate, s_memory_pool_release,
  s_check_memory_pool_create, s_get_max_memory_pool_bytes, s_get_use_memory_pool_bytes,
  s_get_extra_use_memory_pool_bytes,
}

-- The current address is as far into the buffer as the count of bytes in use says.
pub record IsValid (p : MemoryPool) : Type 0 where
  pub position : p.now_buffer_position_link ≡ p.buffer + p.now_buffer_use_length
  pub within : p.now_buffer_use_length ≤ p.buffer_byte_max
  pub word : p.buffer_byte_max < u32

pub s_memory_pool_create-IsValid :
    (new_buffer : Ptr) (byte_max : ℕ) (p : MemoryPool)
    → new_buffer ≢ null
    → byte_max < u32
    → IsValid (s_memory_pool_create new_buffer byte_max p).0
unfolding s_memory_pool_create
s_memory_pool_create-IsValid new_buffer byte_max p h k = ground arith

module _ (b n : Ptr) (size : ℕ) (p : MemoryPool) (v : IsValid p) where
  pub s_memory_allocate-IsValid :
      p.now_buffer_use_length + size < u32 → IsValid (s_memory_allocate b n size p).0
  unfolding s_memory_allocate
  s_memory_allocate-IsValid fits = ground arith

  pub s_memory_allocate-keeps :
      ((s_memory_allocate b n size p).0.buffer ≡ p.buffer)
      × ((s_memory_allocate b n size p).0.buffer_byte_max ≡ p.buffer_byte_max)
  unfolding s_memory_allocate
  s_memory_allocate-keeps = ground arith

  -- The 32-bit sum in the test of `sMemoryAllocate` can wrap: on every valid pool, a request of
  -- fewer than 2^32 bytes that together with the bytes in use makes at least 2^32 is granted from
  -- the main buffer, as a block that ends behind the end of that buffer.
  pub s_memory_allocate-overrun :
      size < u32
      → u32 ≤ p.now_buffer_use_length + size
      → ((s_memory_allocate b n size p).1 ≡ p.buffer + p.now_buffer_use_length)
        × (p.buffer + p.buffer_byte_max < (s_memory_allocate b n size p).1 + size)
  unfolding s_memory_allocate
  s_memory_allocate-overrun h k = ground arith

-- After `sMemoryPoolRelease` no buffer and no extra buffer is left, for every pool whose sizes are
-- 0 where it has no buffer, and the getters for the maximum and the use answer 0. But the getter
-- for the bytes of the extra buffers answers what it did before.
pub s_memory_pool_release_lem :
    (p : MemoryPool)
    → (p.buffer ≡ null → (p.buffer_byte_max ≡ 0) × (p.now_buffer_use_length ≡ 0))
    → let q = s_memory_pool_release p in
      (s_check_memory_pool_create q ≡ false)
      × (q.extra_buffers ≡ [])
      × (s_get_max_memory_pool_bytes q ≡ 0)
      × (s_get_use_memory_pool_bytes q ≡ 0)
      × (s_get_extra_use_memory_pool_bytes q ≡ s_get_extra_use_memory_pool_bytes p)
unfolding s_memory_pool_release s_check_memory_pool_create s_get_max_memory_pool_bytes
    s_get_use_memory_pool_bytes s_get_extra_use_memory_pool_bytes
s_memory_pool_release_lem p h = ground arith
