-- ===== src/TmpSinglyList/Invariant.antt =====
-- When the pointers and the counters of a singly linked list fit together.
use winsock_multi_thread_ser.Base.{
  ℕ, zero, suc, ◌+◌, ◌≤◌, ◌<◌, ◌≡◌, true, List, [], ◌∷◌, length, Ptr, null, u32, count, last_or,
  Chain, Layout,
}
use winsock_multi_thread_ser.TmpSinglyList.{TmpSinglyList}

-- The addresses of `n` nodes of the given size, one behind the other.
abbrev pub nodes_from : ℕ → Ptr → ℕ → List Ptr
nodes_from size p zero = []
nodes_from size p (suc n) = p ∷ nodes_from size (p + size) n

module _ {ℓ} {A : Type ℓ} ⦃y : Layout A⦄ where
  -- The nodes of the array that have not been used yet.
  abbrev pub unused : TmpSinglyList A → List Ptr
  unused l = nodes_from y.size_of l.buffer_list l.buffer_list_count

  -- How often an address occurs among the nodes that are linked, held by a caller, free, and unused.
  abbrev pub owners : TmpSinglyList A → List Ptr → List Ptr → List Ptr → Ptr → ℕ
  owners l linked held free a = count a linked + count a held + count a free + count a (unused l)

  -- `linked` are the nodes of the list from head to tail, `held` those that a caller has got and
  -- not linked, `free` those of the free list, in order. The bytes of nodes that are free or unused
  -- are 0.
  pub record IsList (l : TmpSinglyList A) (linked held free : List Ptr) : Type ℓ where
    pub chain : Chain l.next l.head_node linked
    pub tail : l.tail_node ≡ last_or null linked
    pub links : l.node_link_count ≡ length linked
    pub free_chain : Chain l.next l.free_list free
    pub frees : l.free_list_count ≡ length free
    pub uses : l.node_use_count ≡ length linked + length held
    pub once : (a : Ptr) → owners l linked held free a ≤ 1
    pub not_null : owners l linked held free null ≡ 0
    pub all_live : (a : Ptr) → 0 < owners l linked held free a → l.live a ≡ true
    pub blank_data : (a : Ptr) → 0 < count a free + count a (unused l) → l.node_data a ≡ y.zero_data
    pub blank_number : (a : Ptr) → 0 < count a free + count a (unused l) → l.node_number a ≡ 0
    pub small : length linked + length held + length free + l.buffer_list_count < u32
