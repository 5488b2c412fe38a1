-- ===== src/Merging/Calls.antt =====
-- `malloc`, `free`, `calloc` and `realloc` of HW4/malloc_3.cpp. A pointer is `none` for NULL; a call is
-- `none` where the code reads or writes through a pointer that is none of its own.
use operation_systems.Common.{
  ℕ, ◌+◌, ◌-◌, ◌*◌, ◌%◌, ◌^◌, Bool, true, false, ◌&&◌, ◌||◌, not, Option, none, some, List, [], ◌∷◌,
  ltb, leb, ◌==◌, if◌then◌else◌,
}
use operation_systems.Common.Int.{pos, ◌+ℤ◌}
use operation_systems.Alloc.{
  Block, Stats, Heap, Result, relink, is_minus_one, memset_zero, memcpy, sbrk,
}
use operation_systems.Merging.Nodes.{
  unwind, count_set_free, count_set_used, set_used, connect, count_connect,
  check_if_free_and_connect, split,
}

abbrev pub max_size : ℕ
max_size = 100000000

abbrev pub remain : ℕ
remain = 128

-- The request, raised to a multiple of 4.
abbrev pub aligned : ℕ → ℕ
aligned size = if size % 4 == 0 then size else size + (4 - size % 4)

abbrev pub fits : ℕ → Block → Bool
fits req_size b = leb req_size b.size && b.is_freed

-- `malloc` reads an int through the pointer that it is about to return.
abbrev pub checked : ℕ → Heap → Option ℕ × Heap
checked p h = if is_minus_one h.mem p then (none, h) else (some p, h)

abbrev pub check_result : Option (ℕ × Heap) → Result
check_result none = none
check_result (some (p, h)) = some (checked p h)

abbrev pub as_result : Option (ℕ × Heap) → Result
as_result none = none
as_result (some (p, h)) = some (some p, h)

module _ (meta : ℕ) where
  -- `size_of_allocation - req_size - sizeof(alloc_info_node_t)`, which is unsigned.
  abbrev pub left_over : ℕ → ℕ → ℕ
  left_over size req_size = (size + 2 ^ 64 - (req_size + meta)) % 2 ^ 64

  -- `split`, if enough is left over.
  unfoldable pub shrink : ℕ → List Block → Block → List Block → Stats → Option (List Block × Stats)
  shrink size before b after s =
      if leb remain (left_over b.size size)
      then split meta size before b after s
      else some (unwind before (b ∷ after), s)

-- `image` says which bytes the headers of a list are made of.
module _ (meta : ℕ) (image : List Block → ℕ → ℕ) where
  -- A change of the list, whose headers are stored.
  abbrev pub put_list : Heap → List Block × Stats → Heap
  put_list h (bs, s) = record (relink meta image bs h) { stats = s }

  abbrev pub at_put : ℕ → Heap → Option (List Block × Stats) → Option (ℕ × Heap)
  at_put p h none = none
  at_put p h (some r) = some (p, put_list h r)

  -- A free block that fits.
  unfoldable pub reuse : ℕ → List Block → Block → List Block → Heap → Option (ℕ × Heap)
  reuse req_size before b after h =
      if ltb (left_over meta b.size req_size) remain
      then some (
        b.start,
        put_list h
            (unwind before (record b { is_freed = false } ∷ after), count_set_used b.size h.stats),
      )
      else at_put b.start h (split meta req_size before b after h.stats)

  -- `setFree` is stored in the header of a node that `connect` then takes into another one.
  unfoldable pub free_node : List Block → Block → List Block → Heap → Heap
  free_node before b after h =
      if b.is_freed
      then h
      else put_list (relink meta image (unwind before (record b { is_freed = true } ∷ after)) h) (
          check_if_free_and_connect meta before (record b { is_freed = true }) after
            (count_set_free b.size h.stats))

  -- The node in front of `p`, looked for from a node of the list on.
  unfoldable pub free_from : ℕ → List Block → List Block → Heap → Option Heap
  free_from p before [] h = none
  free_from p before (b ∷ after) h =
      let further = free_from p (b ∷ before) after h in
      if b.start == p then some (free_node before b after h) else further

  unfoldable pub free : Option ℕ → Heap → Option Heap
  free none h = some h
  free (some p) h = free_from p [] h.blocks h

module _ (meta : ℕ) (image : List Block → ℕ → ℕ) (grants : ℕ → ℕ → Bool) where
  -- `wilderness_block` is grown; the pointer of `sbrk` is returned if an int there is -1.
  abbrev pub grow : ℕ → List Block → Block → Option (ℕ × Heap) → Option (ℕ × Heap)
  grow offset before w none = none
  grow offset before w (some (p, h)) =
      let s = set_used w h.stats in
      if is_minus_one h.mem p
      then some (p, h)
      else some (
        w.start,
        put_list meta image h (
          unwind before (record w { size = w.size + offset; is_freed = false } ∷ []),
          record s { num_allocated_bytes = s.num_allocated_bytes +ℤ pos offset },
        ),
      )

  unfoldable pub wilderness : ℕ → List Block → Block → Heap → Option (ℕ × Heap)
  wilderness req_size before w h =
      if ltb req_size w.size
      then some (w.start, h)
      else grow (req_size - w.size) before w (sbrk grants (req_size - w.size) h)

  -- `is_freed` of the first node is not written: it is what the memory holds.
  abbrev pub begin_list : ℕ → Option (ℕ × Heap) → Result
  begin_list req_size none = none
  begin_list req_size (some (p, h)) =
      if is_minus_one h.mem p
      then some (none, record h { first_alloc = true })
      else some (
        some (p + meta),
        record (relink meta image
            (record { start = p + meta; size = req_size; is_freed = not (h.mem p == 0) } ∷ []) h) {
              first_alloc = false;
              stats = record h.stats {
                nodes = pos 1;
                num_allocated_blocks = pos 1;
                num_allocated_bytes = pos req_size;
                num_free_bytes = pos 0;
                num_meta_data_blocks = pos 1;
                num_meta_data_bytes = pos meta;
              };
            },
      )

  unfoldable pub first_allocation : ℕ → Heap → Result
  first_allocation req_size h = begin_list req_size (sbrk grants (req_size + meta) h)

  -- A new node behind the last one, where the nodes are given from the last one on.
  abbrev pub append_node : ℕ → List Block → Option (ℕ × Heap) → Result
  append_node size nodes none = none
  append_node size nodes (some (p, h)) =
      if is_minus_one h.mem p
      then some (none, h)
      else some (
        some (p + meta),
        record (relink meta image
            (unwind nodes (record { start = p + meta; size = size; is_freed = false } ∷ [])) h) {
              stats = record h.stats {
                nodes = h.stats.nodes +ℤ pos 1;
                num_allocated_blocks = h.stats.num_allocated_blocks +ℤ pos 1;
                num_allocated_bytes = h.stats.num_allocated_bytes +ℤ pos size;
                num_meta_data_blocks = h.stats.num_meta_data_blocks +ℤ pos 1;
              };
            },
      )

  -- Behind the last node the loop of `find_free_allocation_address` is over, and the last node may be the
  -- free one that is grown.
  unfoldable pub past_end : ℕ → List Block → Heap → Result
  past_end req_size [] h = none
  past_end req_size (w ∷ before) h =
      if w.is_freed
      then check_result (wilderness req_size before w h)
      else append_node req_size (w ∷ before) (sbrk grants (req_size + meta) h)

  -- The loop, from a node on, and what `malloc` does with its result.
  unfoldable pub find_free : ℕ → List Block → List Block → Heap → Result
  find_free req_size before [] h = past_end req_size before h
  find_free req_size before (b ∷ after) h =
      let further = find_free req_size (b ∷ before) after h in
      if fits req_size b then check_result (reuse meta image req_size before b after h) else further

  unfoldable pub malloc : ℕ → Heap → Result
  malloc size h =
      if ltb max_size size || size == 0
      then some (none, h)
      else if h.first_alloc
      then first_allocation (aligned size) h
      else find_free (aligned size) [] h.blocks h

  abbrev pub clear_new : ℕ → Result → Result
  clear_new n none = none
  clear_new n (some (none, h)) = some (none, h)
  clear_new n (some (some p, h)) = some (some p, record h { mem = memset_zero p n h.mem })

  -- The product is a `size_t`.
  unfoldable pub calloc : ℕ → ℕ → Heap → Result
  calloc num size h = clear_new (num * size % 2 ^ 64) (malloc (num * size % 2 ^ 64) h)

  abbrev pub return_from : Option ℕ → Option Heap → Result
  return_from p none = none
  return_from p (some h) = some (p, h)

  -- The end of `realloc`, with the old block and what `malloc` returned.
  abbrev pub move_block : Block → Result → Result
  move_block old none = none
  move_block old (some (none, h)) = some (none, h)
  move_block old (some (some q, h)) =
      return_from (some q)
        (free meta image (some old.start) (record h { mem = memcpy q old.start old.size h.mem }))

  unfoldable pub realloc_node : ℕ → List Block → Block → List Block → Heap → Result
  realloc_node size before old [] h =
      if leb size old.size
      then as_result (at_put meta image old.start h (shrink meta size before old [] h.stats))
      else as_result (wilderness size before old h)
  realloc_node size before old (up ∷ after) h =
      if leb size old.size
      then as_result
          (at_put meta image old.start h (shrink meta size before old (up ∷ after) h.stats))
      else if up.is_freed && leb size (old.size + up.size + meta)
      then as_result (
          at_put meta image old.start h (
            shrink meta size before (connect meta old up) after
              (count_connect meta old up h.stats)))
      else move_block old (malloc size h)

  unfoldable pub realloc_from : ℕ → ℕ → List Block → List Block → Heap → Result
  realloc_from p size before [] h = none
  realloc_from p size before (b ∷ after) h =
      let further = realloc_from p size (b ∷ before) after h in
      if b.start == p then realloc_node size before b after h else further

  unfoldable pub realloc : Option ℕ → ℕ → Heap → Result
  realloc none size h = malloc size h
  realloc (some p) size h =
      if size == 0 || ltb max_size size
      then some (none, h)
      else realloc_from p (aligned size) [] h.blocks h
