-- ===== src/Links/Tests.antt =====
-- The list theorems at two small queues.
use soa_ze_os.Prelude.{◌≡◌, refl, false, some, [], ◌∷◌, arith, ◌==◌, if◌then◌else◌}
use soa_ze_os.Links.{
  Links, null, init_list_head, list_add, list_add_tail, list_del, list_empty, list_for_each,
}
use soa_ze_os.Links.Queue.{IsQueue, SameOutside}
use soa_ze_os.Links.Insert.{list_add_tail_lem, list_add_lem}
use soa_ze_os.Links.Remove.{list_del_lem}
use soa_ze_os.Links.Walk.{init_list_head_lem, list_empty_lem, list_for_each_lem}

-- The head is at 100, with the nodes 7 and 8; node 9 hangs nowhere.
abbrev links : Links
links = record {
  next = λ a. if a == 100 then 7 else if a == 7 then 8 else if a == 8 then 100 else 0;
  prev = λ a. if a == 100 then 8 else if a == 7 then 100 else if a == 8 then 7 else 0;
}

links-IsQueue : IsQueue links 100 (7 ∷ 8 ∷ [])
links-IsQueue = record {
  chain = (refl, refl, (refl, refl, (refl, refl)));
  distinct = (refl, (refl, (refl, tt)));
  not_null = refl;
}

init_list_head_lem_example :
    (g : Links) × (init_list_head 50 links ≡ some (tt, g))
    × IsQueue g 50 []
    × SameOutside (50 ∷ []) links g
init_list_head_lem_example = init_list_head_lem links 50 (omega arith)

list_add_tail_lem_example :
    (g : Links) × (list_add_tail 9 100 links ≡ some (tt, g))
    × IsQueue g 100 (7 ∷ 8 ∷ 9 ∷ [])
    × SameOutside (9 ∷ 100 ∷ 7 ∷ 8 ∷ []) links g
list_add_tail_lem_example = list_add_tail_lem 9 links-IsQueue (omega arith) refl

list_add_lem_example :
    (g : Links) × (list_add 9 100 links ≡ some (tt, g))
    × IsQueue g 100 (9 ∷ 7 ∷ 8 ∷ [])
    × SameOutside (9 ∷ 100 ∷ 7 ∷ 8 ∷ []) links g
list_add_lem_example = list_add_lem 9 links-IsQueue (omega arith) refl

list_del_lem_example :
    (g : Links) × (list_del 8 links ≡ some (tt, g))
    × IsQueue g 100 (7 ∷ [])
    × SameOutside (100 ∷ 7 ∷ 8 ∷ []) links g
    × (g.next 8 ≡ null)
    × (g.prev 8 ≡ null)
list_del_lem_example = list_del_lem (7 ∷ []) [] links-IsQueue

list_empty_lem_example : list_empty 100 links ≡ some (false, links)
list_empty_lem_example = list_empty_lem links 100 (7 ∷ 8 ∷ []) links-IsQueue

list_for_each_lem_example : list_for_each 3 100 links ≡ some (7 ∷ 8 ∷ [], links)
list_for_each_lem_example = list_for_each_lem 3 links 100 (7 ∷ 8 ∷ []) links-IsQueue (omega arith)
