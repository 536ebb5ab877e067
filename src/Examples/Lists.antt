-- ===== src/Examples/Lists.antt =====
-- Tests of the lists, on a small one.
use winsock_multi_thread_ser.Base.{
  ℕ, refl, ◌≡◌, ◌||◌, ◌==◌, if◌then◌else◌, [], ◌∷◌, arith, Returns, Layout,
}
use winsock_multi_thread_ser.Memory.{MemoryPool, initial, s_memory_pool_create}
use winsock_multi_thread_ser.TmpSinglyList.{TmpSinglyList, unlink}
use winsock_multi_thread_ser.TmpSinglyList.Invariant.{IsList}
use winsock_multi_thread_ser.TmpSinglyList.Link.{SameNodes}
use winsock_multi_thread_ser.TmpSinglyList.Unlink.{unlink-erase}
use winsock_multi_thread_ser.SinglyList
use winsock_multi_thread_ser.SinglyList.{SinglyList}
use winsock_multi_thread_ser.SinglyList.Unlink.{unlink-eq}

-- Nodes of 8 bytes with a number in them.
instance abbrev layout : Layout ℕ
layout = record { size_of = 8; size_pos = omega arith; zero_data = 0 }

-- An array of five nodes from address 8 on: 8 and 16 are linked, 24 is held, 32 is free, 40 is
-- unused.
abbrev queue : TmpSinglyList ℕ
queue = record {
  object_count_max = 5;
  buffer_list = 40;
  buffer_list_count = 1;
  head_node = 8;
  tail_node = 16;
  node_use_count = 3;
  node_link_count = 2;
  free_list = 32;
  free_list_count = 1;
  live = λ a. a == 8 || (a == 16 || (a == 24 || (a == 32 || a == 40)));
  node_data = λ a. if a == 8 then 70 else if a == 16 then 71 else 0;
  node_number = λ a. 0;
  next = λ a. if a == 8 then 16 else 0;
}

queue-IsList : IsList queue (8 ∷ 16 ∷ []) (24 ∷ []) (32 ∷ [])
queue-IsList = record {
  chain = (refl, (refl, refl));
  tail = refl;
  links = refl;
  free_chain = (refl, refl);
  frees = refl;
  uses = refl;
  once = λ a. ground arith;
  not_null = refl;
  all_live = λ a i. ground arith;
  blank_data = λ a i. ground arith;
  blank_number = λ a i. refl;
  small = omega arith;
}

-- The same with no free node.
abbrev drained : TmpSinglyList ℕ
drained = record queue { free_list = 0; free_list_count = 0 }

drained-IsList : IsList drained (8 ∷ 16 ∷ []) (24 ∷ []) []
drained-IsList = record {
  chain = (refl, (refl, refl));
  tail = refl;
  links = refl;
  free_chain = refl;
  frees = refl;
  uses = refl;
  once = λ a. ground arith;
  not_null = refl;
  all_live = λ a i. ground arith;
  blank_data = λ a i. ground arith;
  blank_number = λ a i. refl;
  small = omega arith;
}

unlink-erase_example :
    Returns
      (λ l'. IsList l' (8 ∷ []) (16 ∷ 24 ∷ []) (32 ∷ []) × SameNodes queue l')
      (unlink 16 queue)
unlink-erase_example =
    unlink-erase queue 16 (8 ∷ 16 ∷ []) (24 ∷ []) (32 ∷ []) queue-IsList (omega arith)

abbrev pool : MemoryPool
unfolding s_memory_pool_create
pool = (s_memory_pool_create 1000 100 initial).0

-- A list with one node, which is unlinked.
abbrev single : SinglyList
single = record queue { tail_node = 8; node_link_count = 1; node_data = λ a. 0; next = λ a. 0 }

unlink-eq_example : SinglyList.unlink 8 single ≡ unlink 8 single
unlink-eq_example = unlink-eq single 8 (8 ∷ []) (refl, refl) refl refl (λ a i. ground arith)
