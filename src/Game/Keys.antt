-- ===== src/Game/Keys.antt =====
-- A second key before the first has been used, in `start_game` of practica/zeos/game.c.
use soa_ze_os.Prelude.{◌≡◌, none, some}
use soa_ze_os.Links.{Links, null, update, list_del, list_first}
use soa_ze_os.Game.Play.{Play, movements, moviments_list}

-- The list after its only node has been cleared and added once more: the node leads to itself.
abbrev knot : Links → Links
knot h = record {
  next =
      update (update (update h.next moviments_list null) moviments_list movements) moviments_list
        moviments_list;
  prev =
      update (update (update h.prev moviments_list null) movements moviments_list) moviments_list
        moviments_list;
}

-- The node taken off: the head still leads to it, and its pointers are null.
abbrev torn : Links → Links
torn h = record {
  next = update (update (knot h).next moviments_list moviments_list) moviments_list null;
  prev = update (update (knot h).prev moviments_list moviments_list) moviments_list null;
}

-- What a second key does to the list of moves: it is added, then taken off once, and stays at the head,
-- and the next attempt to take it off goes through a null pointer.
abbrev pub Tears : Play → Type 0
Tears q =
    (g : Links) × (list_del moviments_list q.links ≡ some (tt, g))
    × (list_first movements g ≡ some (moviments_list, g))
    × (list_del moviments_list g ≡ none)
