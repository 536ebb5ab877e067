-- ===== src/DoublyList.antt =====
-- List/DoublyList.hpp: a doubly linked list whose nodes come from `new`. What is here is how nodes come
-- and go; the pointers between linked nodes are set as in TMPDoublyList.hpp.
pub mod Release
use winsock_multi_thread_ser.Base.{
  ℕ, zero, suc, ◌+◌, ◌-◌, Bool, true, false, ltb, ◌==◌, if◌then◌else◌, Ptr, null, inc32, Run, ok,
  fault, out_of_fuel, ◌>>=◌, update,
}

-- The members of the class, and the memory of the nodes: `live` says at which addresses one is.
pub record DoublyList : Type 0 where
  pub head_node : Ptr
  pub tail_node : Ptr
  pub node_use_count : ℕ
  pub node_link_count : ℕ
  pub free_list : Ptr
  pub free_list_count : ℕ
  pub live : Ptr → Bool
  pub node_number : Ptr → ℕ
  pub data_of : Ptr → Ptr
  pub prev : Ptr → Ptr
  pub next : Ptr → Ptr

-- `Create`.
unfoldable pub create : DoublyList → DoublyList
create l = record l {
  head_node = null;
  tail_node = null;
  node_use_count = 0;
  node_link_count = 0;
  free_list = null;
  free_list_count = 0;
}

-- `MY_DELETE` of a node: at an address with none, that is undefined.
unfoldable pub my_delete : Ptr → DoublyList → Run DoublyList
my_delete p l = if l.live p then ok (record l { live = update l.live p false }) else fault

get_next : Ptr → DoublyList → Run Ptr
get_next p l = if l.live p then ok (l.next p) else fault

-- The end of `GetNode`, for both of its sources.
unfoldable pub fill_node : Ptr → Ptr → DoublyList → Run (DoublyList × Ptr)
fill_node user_data node l =
    if l.live node
    then ok (
      record l {
        node_number = update l.node_number node 0;
        data_of = update l.data_of node user_data;
        prev = update l.prev node null;
        next = update l.next node null;
        node_use_count = inc32 l.node_use_count;
      },
      node,
    )
    else fault

-- `GetNode`, where `new_node` is what `new` returns.
unfoldable pub get_node : Ptr → Ptr → DoublyList → Run (DoublyList × Ptr)
unfolding fill_node get_next
get_node new_node user_data l =
    if ltb 0 l.free_list_count
    then (do
      n ← get_next l.free_list l
      fill_node user_data l.free_list
          (record l { free_list = n; free_list_count = l.free_list_count - 1 }))
    else fill_node user_data new_node
        (if new_node == null then l else record l { live = update l.live new_node true })

-- `ReleaseNode`: the list, and the caller's pointer.
unfoldable pub release_node : Ptr → DoublyList → Run (DoublyList × Ptr)
unfolding my_delete
release_node p l =
    if p == null
    then ok (l, p)
    else if l.node_use_count == 0
    then ok (l, p)
    else do l ← my_delete p l; ok (record l { node_use_count = l.node_use_count - 1 }, null)

-- A loop of `Release`: the pointer to the next node is read, and then the node is deleted.
unfoldable pub release_chain : ℕ → Ptr → DoublyList → Run DoublyList
unfolding my_delete get_next
release_chain zero node l = out_of_fuel
release_chain (suc k) node l =
    if node == null then ok l else do n ← get_next node l; l ← my_delete node l; release_chain k n l

-- `Release`. Each loop is given one round more than its counter says.
unfoldable pub release : DoublyList → Run DoublyList
unfolding release_chain create
release l = do
  l' ← release_chain (l.node_link_count + 1) l.head_node l
  l'' ← release_chain (l'.free_list_count + 1) l'.free_list l'
  ok (create l'')
