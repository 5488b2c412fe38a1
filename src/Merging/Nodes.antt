-- ===== src/Merging/Nodes.antt =====
-- The work on single nodes of the list: `setFree`, `setUsed`, `connect`, `checkIfFreeAndConnect` and
-- `split`. A place in the list is a node with the nodes in front of it, from its `prev` on down to the
-- head, and those behind it, from its `next` on.
use operation_systems.Common.{
  ℕ, ◌+◌, ◌-◌, Bool, true, false, ◌&&◌, Option, none, some, List, [], ◌∷◌, ltb, if◌then◌else◌,
}
use operation_systems.Common.Int.{pos, ◌+ℤ◌, ◌-ℤ◌}
use operation_systems.Alloc.{Block, Stats}

-- The list from the head on.
abbrev pub unwind : List Block → List Block → List Block
unwind [] bs = bs
unwind (b ∷ before) bs = unwind before (b ∷ bs)

-- The counters after `setFree` of a node in use, and after `setUsed` of a free one.
abbrev pub count_set_free : ℕ → Stats → Stats
count_set_free size s = record s {
  num_free_blocks = s.num_free_blocks +ℤ pos 1;
  num_free_bytes = s.num_free_bytes +ℤ pos size;
}

abbrev pub count_set_used : ℕ → Stats → Stats
count_set_used size s = record s {
  num_free_blocks = s.num_free_blocks -ℤ pos 1;
  num_free_bytes = s.num_free_bytes -ℤ pos size;
}

-- What `setUsed` does to the counters.
abbrev pub set_used : Block → Stats → Stats
set_used p1 s = if p1.is_freed then count_set_used p1.size s else s

-- `meta` is `sizeof(alloc_info_node_t)`.
module _ (meta : ℕ) where
  -- `connect`: `p1` with `p2`, the node behind it, taken into it.
  abbrev pub connect : Block → Block → Block
  connect p1 p2 = record p1 { size = p1.size + (p2.size + meta) }

  abbrev pub count_connect : Block → Block → Stats → Stats
  count_connect p1 p2 s =
      if p2.is_freed
      then record s {
        num_free_blocks = s.num_free_blocks -ℤ pos 1;
        num_allocated_blocks = s.num_allocated_blocks -ℤ pos 1;
        num_allocated_bytes = s.num_allocated_bytes +ℤ pos meta;
        num_free_bytes =
            if p1.is_freed then s.num_free_bytes +ℤ pos meta else s.num_free_bytes -ℤ pos p2.size;
        num_meta_data_blocks = s.num_meta_data_blocks -ℤ pos 1;
      }
      else s

  -- `connect` of `p1` with the node behind it, if `allowed`, and if that is a free one and not the head.
  abbrev pub connect_up : Bool → List Block → Block → List Block → Stats → List Block × Stats
  connect_up allowed before p1 [] s = (unwind before (p1 ∷ []), s)
  connect_up allowed before p1 (up ∷ after) s =
      if up.is_freed && allowed
      then (unwind before (connect p1 up ∷ after), count_connect p1 up s)
      else (unwind before (p1 ∷ up ∷ after), s)

  unfoldable pub check_if_free_and_connect :
      List Block → Block → List Block → Stats → List Block × Stats
  check_if_free_and_connect [] p1 after s = connect_up true [] p1 after s
  check_if_free_and_connect (down ∷ before) p1 after s =
      if down.is_freed && p1.is_freed
      then connect_up true before (connect down p1) after (count_connect down p1 s)
      else connect_up p1.is_freed (down ∷ before) p1 after s

  abbrev pub count_split : Stats → Stats
  count_split s = record s {
    num_meta_data_blocks = s.num_meta_data_blocks +ℤ pos 1;
    num_allocated_blocks = s.num_allocated_blocks +ℤ pos 1;
    num_allocated_bytes = s.num_allocated_bytes -ℤ pos meta;
  }

  -- `none`: the header of the new node does not fit into `p1`, and is written over what stands behind it.
  unfoldable pub split : ℕ → List Block → Block → List Block → Stats → Option (List Block × Stats)
  split req_size before p1 after s =
      let left = p1.size - req_size - meta in
      if ltb p1.size (req_size + meta)
      then none
      else some (
          check_if_free_and_connect (record p1 { size = req_size; is_freed = false } ∷ before)
            (record { start = p1.start + req_size + meta; size = left; is_freed = true }) after
            (count_set_free left (count_split (set_used p1 s))))
