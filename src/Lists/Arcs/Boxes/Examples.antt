-- ===== src/Lists/Arcs/Boxes/Examples.antt =====
-- One box and fuel for three items.
use nyaux_kc.Lists.Arcs.{push_front, push_back, pop_front, pop_back, clear, remove}
use nyaux_kc.Lists.Arcs.Boxes.{
  box_push_front, box_push_back, box_pop_front, box_pop_back, box_clear, box_remove,
}
use nyaux_kc.Lists.Arcs.Boxes.Counted.{Matches, box-Matches}

box-Matches_example :
    Matches (box_push_front 16) (push_front 16)
    × Matches (box_push_back 16) (push_back 16)
    × Matches box_pop_front pop_front
    × Matches box_pop_back pop_back
    × Matches (box_clear 3) (clear 3)
    × Matches (box_remove 3 16) (remove 3 16)
box-Matches_example = box-Matches 3 16
