-- ===== src/TmpSinglyList.antt =====
-- MintServer/src/MTLibrary/List/TMPSinglyList.hpp: a singly linked list whose nodes come from an
-- array in the memory pool, and go to a free list when they are given back. Log lines are left out.
pub mod Invariant
pub mod Link
pub mod Unlink
pub mod Nodes
pub mod Create
use winsock_multi_thread_ser.Base.{
  ℕ, zero, suc, ◌+◌, ◌-◌, ◌*◌, ◌/◌, ◌%◌, Bool, true, Option, none, some, ltb, ◌==◌, if◌then◌else◌,
  Ptr, null, u32, inc32, Run, ok, fault, out_of_fuel, ◌>>=◌, update, Layout,
}
use winsock_multi_thread_ser.Memory.{MemoryPool, s_memory_allocate}

-- The members of the class, and behind them the memory of the nodes: `live` says which addresses
-- hold one, and the other functions are the members of `TSNode< DATA_TYPE >`.
pub record TmpSinglyList {ℓ} (A : Type ℓ) : Type ℓ where
  pub object_count_max : ℕ
  pub buffer_list : Ptr
  pub buffer_list_count : ℕ
  pub head_node : Ptr
  pub tail_node : Ptr
  pub node_use_count : ℕ
  pub node_link_count : ℕ
  pub free_list : Ptr
  pub free_list_count : ℕ
  pub live : Ptr → Bool
  pub node_data : Ptr → A
  pub node_number : Ptr → ℕ
  pub next : Ptr → Ptr

module _ {ℓ} {A : Type ℓ} where
  -- `p->pNext` read and written; at an address with no node, as `NULL`, that is undefined.
  unfoldable pub get_next : Ptr → TmpSinglyList A → Run Ptr
  get_next p l = if l.live p then ok (l.next p) else fault

  unfoldable pub set_next : Ptr → Ptr → TmpSinglyList A → Run (TmpSinglyList A)
  set_next p q l = if l.live p then ok (record l { next = update l.next p q }) else fault

module _ {ℓ} {A : Type ℓ} ⦃y : Layout A⦄ where
  -- All bytes of a node set to 0.
  pub cleared : Ptr → TmpSinglyList A → TmpSinglyList A
  cleared p l = record l {
    node_data = update l.node_data p y.zero_data;
    node_number = update l.node_number p 0;
    next = update l.next p null;
  }

  pub zero_memory : Ptr → TmpSinglyList A → Run (TmpSinglyList A)
  unfolding cleared
  zero_memory p l = if l.live p then ok (cleared p l) else fault

  -- A new block of `n` nodes from the memory pool, whose bytes are 0; none if the pool failed.
  pub format : Ptr → ℕ → TmpSinglyList A → TmpSinglyList A
  unfolding cleared
  format p zero l = l
  format p (suc n) l =
      let rest = format (p + y.size_of) n (cleared p (record l { live = update l.live p true })) in
      if p == null then l else rest

  -- `Create`. The size of the block is taken in 32 bits; it holds as many nodes as fit.
  pub create : Ptr → Ptr → ℕ → MemoryPool → TmpSinglyList A → MemoryPool × TmpSinglyList A
  unfolding format
  create new_buffer new_node object_max m l =
      let bytes = (y.size_of * object_max) % u32 in
      let a = s_memory_allocate new_buffer new_node bytes m in
      let cleared_list : TmpSinglyList A = record l {
        object_count_max = object_max;
        buffer_list = null;
        buffer_list_count = object_max;
        head_node = null;
        tail_node = null;
        node_use_count = 0;
        node_link_count = 0;
        free_list = null;
        free_list_count = 0;
      } in
      if ltb 0 object_max
      then (a.0, format a.1 (bytes / y.size_of) (record cleared_list { buffer_list = a.1 }))
      else (m, cleared_list)

  -- The end of `GetNode`, for each of its three sources.
  take_node : MemoryPool → Ptr → TmpSinglyList A → Run (MemoryPool × TmpSinglyList A × Ptr)
  unfolding set_next
  take_node m node l = do
    l ← set_next node null l
    ok (m, record l { node_use_count = inc32 l.node_use_count }, node)

  -- `GetNode`: from the free list, from the array, or from the memory pool.
  pub get_node : Ptr → Ptr → MemoryPool → TmpSinglyList A → Run (MemoryPool × TmpSinglyList A × Ptr)
  unfolding take_node get_next format
  get_node new_buffer new_node m l =
      if ltb 0 l.free_list_count
      then (do
        n ← get_next l.free_list l
        take_node m l.free_list
            (record l { free_list = n; free_list_count = l.free_list_count - 1 }))
      else if ltb 0 l.buffer_list_count
      then take_node m l.buffer_list (record l {
        buffer_list = l.buffer_list + y.size_of;
        buffer_list_count = l.buffer_list_count - 1;
      })
      else (let a = s_memory_allocate new_buffer new_node y.size_of m in
          take_node a.0 a.1 (format a.1 1 l))

  -- `FreeNode`: the list, and the caller's pointer, which is cleared.
  pub free_node : Ptr → TmpSinglyList A → Run (TmpSinglyList A × Ptr)
  unfolding zero_memory set_next
  free_node p l = if p == null then ok (l, p) else if l.node_use_count == 0 then ok (l, p) else do
    l ← zero_memory p l
    l ← if ltb 0 l.free_list_count then set_next p l.free_list l else ok l
    ok (
      record l {
        free_list = p;
        free_list_count = inc32 l.free_list_count;
        node_use_count = l.node_use_count - 1;
      },
      null,
    )

module _ {ℓ} {A : Type ℓ} where
  -- `Link`: at the tail.
  pub link : Ptr → TmpSinglyList A → Run (TmpSinglyList A)
  unfolding set_next
  link p l = if p == null then ok l else do
    l ← set_next p null l
    if l.head_node == null
        then ok
            (record l { tail_node = p; head_node = p; node_link_count = inc32 l.node_link_count })
        else do
          l ← set_next l.tail_node p l
          ok (record l { tail_node = p; node_link_count = inc32 l.node_link_count })

  -- `LinkToHead`.
  pub link_to_head : Ptr → TmpSinglyList A → Run (TmpSinglyList A)
  unfolding set_next
  link_to_head p l = if p == null then ok l else do
    l ← set_next p null l
    if l.head_node == null
        then ok
            (record l { tail_node = p; head_node = p; node_link_count = inc32 l.node_link_count })
        else do
          l ← set_next p l.head_node l
          ok (record l { head_node = p; node_link_count = inc32 l.node_link_count })

  -- The loop of `Unlink`: `some prev_node` where `get_flag` is set.
  unfoldable pub find : ℕ → Ptr → Ptr → Ptr → TmpSinglyList A → Run (Option Ptr)
  unfolding get_next
  find zero target prev_node node l = out_of_fuel
  find (suc k) target prev_node node l =
      if node == null
      then ok none
      else if node == target
      then ok (some prev_node)
      else do n ← get_next node l; find k target node n l

  -- The links round the node that leaves.
  unfoldable pub cut : Ptr → Ptr → TmpSinglyList A → Run (TmpSinglyList A)
  unfolding get_next set_next
  cut prev_node target l =
      if prev_node == null
      then (if l.head_node == l.tail_node
          then (do n ← get_next l.head_node l; ok (record l { head_node = n; tail_node = n }))
          else (do n ← get_next l.head_node l; ok (record l { head_node = n })))
      else if target == l.tail_node
      then set_next prev_node null (record l { tail_node = prev_node })
      else (do n ← get_next target l; set_next prev_node n l)

  unfoldable pub detach : Ptr → TmpSinglyList A → Option Ptr → Run (TmpSinglyList A)
  unfolding cut
  detach target l none = ok l
  detach target l (some prev_node) = do
    l ← cut prev_node target l
    l ← set_next target null l
    ok (if ltb 0 l.node_link_count then record l { node_link_count = l.node_link_count - 1 } else l)

  -- `Unlink`. The loop is given one round more than there are linked nodes.
  unfoldable pub unlink : Ptr → TmpSinglyList A → Run (TmpSinglyList A)
  unfolding find detach
  unlink target l =
      if target == null
      then ok l
      else do found ← find (l.node_link_count + 1) target null l.head_node l; detach target l found

  search : ℕ → ℕ → Ptr → TmpSinglyList A → Run Ptr
  unfolding get_next
  search zero number node l = out_of_fuel
  search (suc k) number node l =
      if node == null
      then ok null
      else if l.node_number node == number
      then ok node
      else do n ← get_next node l; search k number n l

  -- `SearchNodeWithNumber`: the node, or `NULL`.
  pub search_node_with_number : ℕ → TmpSinglyList A → Run Ptr
  unfolding search
  search_node_with_number number l = search (l.node_link_count + 1) number l.head_node l
