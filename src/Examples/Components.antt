-- ===== src/Examples/Components.antt =====
-- Tests of the tree of components, on three levels.
use winsock_multi_thread_ser.Base.{
  ℕ, ◌+◌, ◌≡◌, refl, Bool, true, false, none, some, List, [], ◌∷◌, ◌++◌,
}
use winsock_multi_thread_ser.Components.{
  on_create, on_release, on_update, on_late_update, on_show, Component, Nodes, end, node,
  new_component, new_framework, search_component, send_message, g_recursive, left_down, mouse,
  mouse_calls, ComponentFramework, calls, v_run,
}
use winsock_multi_thread_ser.Components.Search.{preorder, find_id, search_component-preorder}
use winsock_multi_thread_ser.Components.Visits.{calls_of, v_run-preorder, g_recursive-doubled}

abbrev component : Bool → ℕ → Component
component b id = record { address = 100 + id; type = 0; id = id; passes_on = λ e. b }

-- 1 with 2 below it, which has 3 below it, and 4 behind 1.
abbrev tree : Bool → Nodes
tree b =
    node 1 (component b 1) (node 2 (component b 2) (node 3 (component b 3) end end) end)
      (node 4 (component b 4) end end)

abbrev framework : ComponentFramework
framework = record {
  update_flag = true;
  show_flag = true;
  mouse_state_type = left_down;
  component_list = tree false;
}

abbrev all : List Component
all = component false 1 ∷ component false 2 ∷ component false 3 ∷ component false 4 ∷ []

search_component-inner : search_component 3 (tree true) ≡ some (component true 3)
unfolding search_component
search_component-inner = refl

search_component-none : search_component 9 (tree true) ≡ none
unfolding search_component
search_component-none = refl

send_message-none : send_message 9 (tree true) ≡ (none, false)
unfolding send_message
send_message-none = refl

search_component-preorder_example :
    search_component 3 (tree true) ≡ find_id 3 (preorder (tree true))
search_component-preorder_example = search_component-preorder 3 (tree true)

v_run-preorder_example :
    v_run framework
    ≡ calls on_create all
      ++ (((calls on_update all ++ (mouse left_down ∷ calls on_late_update all))
            ++ calls on_show all)
          ++ calls on_release all)
unfolding mouse_calls
v_run-preorder_example =
    v_run-preorder framework refl refl
      ((λ e. refl), ((λ e. refl), ((λ e. refl), tt, tt), tt), ((λ e. refl), tt, tt))

-- 3 is called four times.
g_recursive-doubled_example : calls_of 103 (g_recursive on_update (tree true)) ≡ 4
g_recursive-doubled_example =
    g_recursive-doubled on_update 103 (tree true)
      ((λ e. refl), ((λ e. refl), ((λ e. refl), tt, tt), tt), ((λ e. refl), tt, tt))

new_component-first : (new_component 100 (λ e. true) 0).1 ≡ 100
unfolding new_component
new_component-first = refl

new_component-later : (new_component 200 (λ e. true) 100).1 ≡ 100
unfolding new_component
new_component-later = refl

new_framework-v_run : v_run new_framework ≡ []
unfolding v_run new_framework
new_framework-v_run = refl
