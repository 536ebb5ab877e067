-- ===== src/Memory/Blocks.antt =====
-- Any history of requests to the memory pool: the blocks do not overlap.
use winsock_multi_thread_ser.Base.{
  ℕ, ◌+◌, ◌≤◌, ◌<◌, ◌≡◌, refl, ◌∙◌, ◌⊎◌, List, [], ◌∷◌, arith, Ptr, null, u32,
}
use winsock_multi_thread_ser.Memory.{MemoryPool, s_memory_allocate}
use winsock_multi_thread_ser.Memory.Bounds.{
  IsValid, s_memory_allocate-IsValid, s_memory_allocate-keeps,
}

-- A call of `sMemoryAllocate`: its argument and the two answers of `new`.
pub record Request : Type 0 where
  pub new_buffer : Ptr
  pub new_node : Ptr
  pub size : ℕ

pub record Block : Type 0 where
  pub start : Ptr
  pub size : ℕ

abbrev pub block : Ptr → ℕ → Block
block p n = record { start = p; size = n }

-- The blocks that a sequence of requests gets, in order; a request that fails gets `null`.
unfoldable pub serve : MemoryPool → List Request → List Block
serve p [] = []
serve p (r ∷ rs) =
    let a = s_memory_allocate r.new_buffer r.new_node r.size p in block a.1 r.size ∷ serve a.0 rs

abbrev pub Apart : Block → Block → Type 0
Apart a b = (a.start ≡ null) ⊎ ((a.start + a.size ≤ b.start) ⊎ (b.start + b.size ≤ a.start))

abbrev pub AllApart : Block → List Block → Type 0
AllApart b [] = Unit {0}
AllApart b (c ∷ cs) = ((c.start ≡ null) ⊎ Apart b c) × AllApart b cs

-- No block of the list overlaps one in front of it, nor one of `old`.
abbrev pub Disjoint : List Block → List Block → Type 0
Disjoint old [] = Unit {0}
Disjoint old (b ∷ bs) = AllApart b old × Disjoint (b ∷ old) bs

-- What `new` promises: its answer overlaps neither the main buffer nor a block in use.
abbrev pub NewIsFresh : Block → List Block → MemoryPool → List Request → Type 0
NewIsFresh main old p [] = Unit {0}
NewIsFresh main old p (r ∷ rs) =
    let a = s_memory_allocate r.new_buffer r.new_node r.size p in
    Apart (block r.new_buffer r.size) main
    × AllApart (block r.new_buffer r.size) old
    × NewIsFresh main (block a.1 r.size ∷ old) a.0 rs

-- No sum in the test of `sMemoryAllocate` wraps.
abbrev pub AllSmall : ℕ → List Request → Type 0
AllSmall byte_max [] = Unit {0}
AllSmall byte_max (r ∷ rs) = (byte_max + r.size < u32) × AllSmall byte_max rs

-- A block in use is a part of the main buffer that the pool has passed, or lies outside of it.
abbrev Placed : MemoryPool → Block → Type 0
Placed p b =
    ((p.buffer ≤ b.start) × (b.start + b.size ≤ p.now_buffer_position_link))
    ⊎ Apart b (block p.buffer p.buffer_byte_max)

abbrev AllPlaced : MemoryPool → List Block → Type 0
AllPlaced p [] = Unit {0}
AllPlaced p (b ∷ bs) = Placed p b × AllPlaced p bs

module _ (x n : Ptr) (size : ℕ) (p : MemoryPool) (v : IsValid p)
    (small : p.buffer_byte_max + size < u32) where
  allocate-AllPlaced :
      (bs : List Block) → AllPlaced p bs → AllPlaced (s_memory_allocate x n size p).0 bs
  unfolding s_memory_allocate
  allocate-AllPlaced [] h = tt
  allocate-AllPlaced (b ∷ bs) h = (ground arith, allocate-AllPlaced bs h.1)

  allocate-Placed :
      Apart (block x size) (block p.buffer p.buffer_byte_max)
      → Placed (s_memory_allocate x n size p).0 (block (s_memory_allocate x n size p).1 size)
  unfolding s_memory_allocate
  allocate-Placed h = ground arith

  allocate-AllApart :
      (bs : List Block)
      → AllApart (block x size) bs
      → AllPlaced p bs
      → AllApart (block (s_memory_allocate x n size p).1 size) bs
  unfolding s_memory_allocate
  allocate-AllApart [] f h = tt
  allocate-AllApart (b ∷ bs) f h = (ground arith, allocate-AllApart bs f.1 h.1)

serve-apart :
    (p : MemoryPool) (rs : List Request) (old : List Block) (start : Ptr) (byte_max : ℕ)
    → p.buffer ≡ start
    → p.buffer_byte_max ≡ byte_max
    → IsValid p
    → AllSmall byte_max rs
    → AllPlaced p old
    → NewIsFresh (block start byte_max) old p rs
    → Disjoint old (serve p rs)
unfolding serve
serve-apart p [] old start byte_max e m v s h f = tt
serve-apart p (r ∷ rs) old start byte_max e m v s h f =
    let a = s_memory_allocate r.new_buffer r.new_node r.size p in
    let small : p.buffer_byte_max + r.size < u32 = omega arith in
    let keeps = s_memory_allocate-keeps r.new_buffer r.new_node r.size p v in
    let placed = allocate-Placed r.new_buffer r.new_node r.size p v small (ground arith) in
    let older = allocate-AllPlaced r.new_buffer r.new_node r.size p v small old h in
    let valid = s_memory_allocate-IsValid r.new_buffer r.new_node r.size p v (omega arith) in
    (
      allocate-AllApart r.new_buffer r.new_node r.size p v small old f.1 h,
      serve-apart a.0 rs (block a.1 r.size ∷ old) start byte_max (keeps.0 ∙ e) (keeps.1 ∙ m) valid
          s.1 (placed, older) f.2,
    )

-- The blocks of any sequence of requests to a valid pool do not overlap, those from the main buffer
-- and those from `new` together, where `new` answers with fresh memory or fails and no request makes
-- the sum of the test wrap.
pub serve-Disjoint :
    (p : MemoryPool) (rs : List Request)
    → IsValid p
    → AllSmall p.buffer_byte_max rs
    → NewIsFresh (block p.buffer p.buffer_byte_max) [] p rs
    → Disjoint [] (serve p rs)
serve-Disjoint p rs v s f = serve-apart p rs [] _ _ refl refl v s tt f
