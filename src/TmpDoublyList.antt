-- ===== src/TmpDoublyList.antt =====
-- MintServer/src/MTLibrary/List/TMPDoublyList.hpp: a doubly linked list whose nodes come from an
-- array in the memory pool, and go to a free list when they are given back. Log lines are left out.
pub mod Insert
pub mod Back
pub mod Invariant
pub mod Unlink
pub mod Link
use winsock_multi_thread_ser.Base.{
  ℕ, zero, suc, ◌+◌, ◌-◌, ◌*◌, ◌/◌, ◌%◌, Bool, true, false, ltb, leb, ◌==◌, if◌then◌else◌, Ptr,
  null, u32, inc32, Run, ok, fault, out_of_fuel, ◌>>=◌, update, Layout,
}
use winsock_multi_thread_ser.Memory.{MemoryPool, s_memory_allocate}

-- The members of the class, and behind them the memory of the nodes: `live` says which addresses
-- hold one, and the other functions are the members of `TDNode< DATA_TYPE >`.
pub record TmpDoublyList {ℓ} (A : Type ℓ) : Type ℓ where
  pub object_count_max : ℕ
  pub buffer_list : Ptr
  pub buffer_list_count : ℕ
  pub head_node : Ptr
  pub tail_node : Ptr
  pub node_use_count : ℕ
  pub node_link_count : ℕ
  pub free_list : Ptr
  pub free_list_count : ℕ
  pub live : Ptr → Bool
  pub node_data : Ptr → A
  pub node_number : Ptr → ℕ
  pub next : Ptr → Ptr
  pub prev : Ptr → Ptr

module _ {ℓ} {A : Type ℓ} where
  -- `p->pNext` and `p->pPrev` read and written; at an address with no node, as `NULL`, that is
  -- undefined.
  pub get_next : Ptr → TmpDoublyList A → Run Ptr
  get_next p l = if l.live p then ok (l.next p) else fault

  pub set_next : Ptr → Ptr → TmpDoublyList A → Run (TmpDoublyList A)
  set_next p q l = if l.live p then ok (record l { next = update l.next p q }) else fault

  pub get_prev : Ptr → TmpDoublyList A → Run Ptr
  get_prev p l = if l.live p then ok (l.prev p) else fault

  pub set_prev : Ptr → Ptr → TmpDoublyList A → Run (TmpDoublyList A)
  set_prev p q l = if l.live p then ok (record l { prev = update l.prev p q }) else fault

module _ {ℓ} {A : Type ℓ} ⦃y : Layout A⦄ where
  -- All bytes of a node set to 0.
  pub cleared : Ptr → TmpDoublyList A → TmpDoublyList A
  cleared p l = record l {
    node_data = update l.node_data p y.zero_data;
    node_number = update l.node_number p 0;
    next = update l.next p null;
    prev = update l.prev p null;
  }

  pub zero_memory : Ptr → TmpDoublyList A → Run (TmpDoublyList A)
  unfolding cleared
  zero_memory p l = if l.live p then ok (cleared p l) else fault

  -- A new block of `n` nodes from the memory pool, whose bytes are 0; none if the pool failed.
  pub format : Ptr → ℕ → TmpDoublyList A → TmpDoublyList A
  unfolding cleared
  format p zero l = l
  format p (suc n) l =
      let rest = format (p + y.size_of) n (cleared p (record l { live = update l.live p true })) in
      if p == null then l else rest

  -- `Create`. The size of the block is taken in 32 bits; it holds as many nodes as fit.
  pub create : Ptr → Ptr → ℕ → MemoryPool → TmpDoublyList A → MemoryPool × TmpDoublyList A
  unfolding format
  create new_buffer new_node object_max m l =
      let bytes = (y.size_of * object_max) % u32 in
      let a = s_memory_allocate new_buffer new_node bytes m in
      let cleared_list : TmpDoublyList A = record l {
        object_count_max = object_max;
        buffer_list = null;
        buffer_list_count = object_max;
        head_node = null;
        tail_node = null;
        node_use_count = 0;
        node_link_count = 0;
        free_list = null;
        free_list_count = 0;
      } in
      if ltb 0 object_max
      then (a.0, format a.1 (bytes / y.size_of) (record cleared_list { buffer_list = a.1 }))
      else (m, cleared_list)

  -- The end of `GetNode`, for each of its three sources.
  take_node : MemoryPool → Ptr → TmpDoublyList A → Run (MemoryPool × TmpDoublyList A × Ptr)
  unfolding set_prev set_next
  take_node m node l = do
    l ← set_prev node null l
    l ← set_next node null l
    ok (m, record l { node_use_count = inc32 l.node_use_count }, node)

  -- `GetNode`: from the free list, from the array, or from the memory pool.
  pub get_node : Ptr → Ptr → MemoryPool → TmpDoublyList A → Run (MemoryPool × TmpDoublyList A × Ptr)
  unfolding take_node get_next format
  get_node new_buffer new_node m l =
      if ltb 0 l.free_list_count
      then (do
        n ← get_next l.free_list l
        take_node m l.free_list
            (record l { free_list = n; free_list_count = l.free_list_count - 1 }))
      else if ltb 0 l.buffer_list_count
      then take_node m l.buffer_list (record l {
        buffer_list = l.buffer_list + y.size_of;
        buffer_list_count = l.buffer_list_count - 1;
      })
      else (let a = s_memory_allocate new_buffer new_node y.size_of m in
          take_node a.0 a.1 (format a.1 1 l))

  -- `FreeNode`: the list, and the caller's pointer, which is cleared.
  pub free_node : Ptr → TmpDoublyList A → Run (TmpDoublyList A × Ptr)
  unfolding zero_memory set_next
  free_node p l = if p == null then ok (l, p) else if l.node_use_count == 0 then ok (l, p) else do
    l ← zero_memory p l
    l ← if ltb 0 l.free_list_count then set_next p l.free_list l else ok l
    ok (
      record l {
        free_list = p;
        free_list_count = inc32 l.free_list_count;
        node_use_count = l.node_use_count - 1;
      },
      null,
    )

module _ {ℓ} {A : Type ℓ} where
  -- `Link`: at the tail.
  pub link : Ptr → TmpDoublyList A → Run (TmpDoublyList A)
  unfolding set_next set_prev
  link p l = if p == null then ok l else do
    l ← set_prev p null l
    l ← set_next p null l
    if l.head_node == null
        then ok
            (record l { tail_node = p; head_node = p; node_link_count = inc32 l.node_link_count })
        else do
          l ← set_next l.tail_node p l
          l ← set_prev p l.tail_node l
          ok (record l { tail_node = p; node_link_count = inc32 l.node_link_count })

  -- `LinkToHead`.
  pub link_to_head : Ptr → TmpDoublyList A → Run (TmpDoublyList A)
  unfolding set_next set_prev
  link_to_head p l = if p == null then ok l else do
    l ← set_prev p null l
    l ← set_next p null l
    if l.head_node == null
        then ok
            (record l { tail_node = p; head_node = p; node_link_count = inc32 l.node_link_count })
        else do
          l ← set_prev l.head_node p l
          l ← set_next p l.head_node l
          ok (record l { head_node = p; node_link_count = inc32 l.node_link_count })

  -- The middle of `Unlink`: the links round the node, and whether it goes on.
  cut_middle : Ptr → Ptr → Ptr → TmpDoublyList A → Run (TmpDoublyList A × Bool)
  unfolding set_next set_prev
  cut_middle p before_p behind_p l = do
    l ← set_next before_p behind_p l
    l ← set_prev behind_p before_p l
    ok (l, true)

  cut_tail : Ptr → TmpDoublyList A → Run (TmpDoublyList A × Bool)
  unfolding get_prev set_next
  cut_tail p l =
      if l.tail_node == p
      then (do
        t ← get_prev l.tail_node l
        l ← set_next t null (record l { tail_node = t })
        ok (l, true))
      else ok (l, false)

  cut_head : Ptr → TmpDoublyList A → Run (TmpDoublyList A × Bool)
  unfolding get_next set_prev
  cut_head p l =
      if l.head_node == p
      then (do
        n ← get_next l.head_node l
        if n == null
            then ok (record l { head_node = null; tail_node = null }, true)
            else do l ← set_prev n null (record l { head_node = n }); ok (l, true))
      else ok (l, false)

  cut : Ptr → TmpDoublyList A → Run (TmpDoublyList A × Bool)
  unfolding get_next get_prev cut_middle cut_tail cut_head
  cut p l = do
    before_p ← get_prev p l
    if before_p == null then cut_head p l else do
      behind_p ← get_next p l
      if behind_p == null then cut_tail p l else cut_middle p before_p behind_p l

  -- `Unlink`, which looks at no other nodes than the neighbours, and what it returns.
  pub unlink : Ptr → TmpDoublyList A → Run (TmpDoublyList A × Bool)
  unfolding cut set_next set_prev
  unlink p l = if p == null then ok (l, false) else do
    (l, goes_on) ← cut p l
    if goes_on
        then (do
          l ← set_prev p null l
          l ← set_next p null l
          ok (
            (if ltb 0 l.node_link_count
                then record l { node_link_count = l.node_link_count - 1 }
                else l),
            true,
          ))
        else ok (l, false)

  search : ℕ → ℕ → Ptr → TmpDoublyList A → Run Ptr
  unfolding get_next
  search zero number node l = out_of_fuel
  search (suc k) number node l =
      if node == null
      then ok null
      else if l.node_number node == number
      then ok node
      else do n ← get_next node l; search k number n l

  -- `SearchNodeWithNumber`: the node, or `NULL`.
  pub search_node_with_number : ℕ → TmpDoublyList A → Run Ptr
  unfolding search
  search_node_with_number number l = search (l.node_link_count + 1) number l.head_node l
