-- ===== src/Examples/Memory.antt =====
-- Tests of the copy, the timer and the memory pool.
use winsock_multi_thread_ser.Base.{◌+◌, ◌<◌, ◌≡◌, refl, List, [], ◌∷◌, arith}
use winsock_multi_thread_ser.Tool.{TimerInfo}
use winsock_multi_thread_ser.Tool.Timer.{polls, Spaced, polls-Spaced}
use winsock_multi_thread_ser.Memory.{MemoryPool, initial, s_memory_pool_create, s_memory_allocate}
use winsock_multi_thread_ser.Memory.Bounds.{IsValid, s_memory_allocate-overrun}
use winsock_multi_thread_ser.Memory.Blocks.{Request, block, serve, Disjoint, serve-Disjoint}

abbrev running : TimerInfo
running = record { start_time = 100; end_time = 0 }

abbrev stopped : TimerInfo
stopped = record { start_time = 0; end_time = 0 }

polls-Spaced_example : Spaced 50 100 (polls 50 running (120 ∷ 160 ∷ 200 ∷ 230 ∷ []))
polls-Spaced_example =
    polls-Spaced 50 running (120 ∷ 160 ∷ 200 ∷ 230 ∷ []) (λ e. omega arith) (λ e. omega arith)
      (ground arith)

-- A pool of 100 bytes at address 1000.
abbrev pool : MemoryPool
unfolding s_memory_pool_create
pool = (s_memory_pool_create 1000 100 initial).0

pool-IsValid : IsValid pool
unfolding pool
pool-IsValid = omega arith

abbrev requests : List Request
requests =
    record { new_buffer = 0; new_node = 0; size = 40 }
    ∷ record { new_buffer = 5000; new_node = 6000; size = 80 }
    ∷ record { new_buffer = 0; new_node = 0; size = 60 }
    ∷ []

serve-requests : serve pool requests ≡ block 1000 40 ∷ block 5000 80 ∷ block 1040 60 ∷ []
unfolding serve s_memory_allocate pool
serve-requests = refl

serve-Disjoint_example : Disjoint [] (serve pool requests)
unfolding pool s_memory_allocate
serve-Disjoint_example = serve-Disjoint pool requests pool-IsValid (ground arith) (ground arith)

s_memory_allocate-overrun_example :
    ((s_memory_allocate 0 0 4_294_967_290 (s_memory_allocate 0 0 40 pool).0).1 ≡ 1040)
    × (1100
        < (s_memory_allocate 0 0 4_294_967_290 (s_memory_allocate 0 0 40 pool).0).1 + 4_294_967_290)
unfolding pool s_memory_allocate
s_memory_allocate-overrun_example =
    s_memory_allocate-overrun 0 0 4_294_967_290 (s_memory_allocate 0 0 40 pool).0 (omega arith)
      (omega arith) (omega arith)
