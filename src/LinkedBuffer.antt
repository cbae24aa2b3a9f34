-- ===== src/LinkedBuffer.antt =====
-- The linked buffer of src/datastuff/linkedbuffer.c and include/datastuff/linkedbuffer.h, which keeps
-- the bytes on their way to a client of the server.
-- The nodes that `next` links from `head` to `tail` are a list, whose last element is the tail.
-- `malloc i` is the memory that the allocation of node number i gives, whatever it holds; it does
-- not fail, since the code exits when it does. The pointers that a caller passes are not NULL.
-- `none` as a result is an access outside an array or through a NULL pointer.
pub mod Copy
pub mod Contents
pub mod Push
pub mod Pop
pub mod Queue
mod Examples
use modemstuff.Base.{
  ℕ, zero, suc, ◌+◌, ◌-◌, ◌*◌, ◌%◌, ◌^◌, min, Bool, true, false, ◌&&◌, List, [], ◌∷◌, ◌++◌, Option,
  none, some, length, drop, read_n, ltb, ◌==◌, if◌then◌else◌, ◌>>=◌,
}

abbrev pub node_capacity : ℕ
node_capacity = 1024

-- `bytes` is the whole array `data`.
pub record Node : Type 0 where
  pub bytes : List ℕ
  pub size : ℕ
  pub offset : ℕ

pub record LinkedBuffer : Type 0 where
  pub nodes : ℕ
  pub chain : List Node

-- A single, empty node; its offset stays as the memory has it.
unfoldable pub linked_buffer_init : (ℕ → Node) → LinkedBuffer
linked_buffer_init malloc = record { nodes = 1; chain = record (malloc 0) { size = 0 } ∷ [] }

sum_sizes : ℕ → List Node → ℕ
sum_sizes total [] = total
sum_sizes total (node ∷ rest) = sum_sizes ((total + node.size) % 2 ^ 32) rest

unfoldable pub linked_buffer_size : LinkedBuffer → ℕ
unfolding sum_sizes
linked_buffer_size b = sum_sizes 0 b.chain

-- `memcpy(&data[i], xs, length xs)`
pub store_at : List ℕ → ℕ → List ℕ → Option (List ℕ)
store_at ds zero [] = some ds
store_at [] zero (x ∷ xs) = none
store_at (d ∷ ds) zero (x ∷ xs) = do rest ← store_at ds zero xs; some (x ∷ rest)
store_at [] (suc i) xs = none
store_at (d ∷ ds) (suc i) xs = do rest ← store_at ds i xs; some (d ∷ rest)

-- Data goes to a node until it is full; the data left comes back.
fill_node : Node → List ℕ → Option (Node × List ℕ)
fill_node node xs =
    let end = node.offset + node.size in
    let n = min (length xs) (node_capacity - end) in
    if ltb end node_capacity
    then (do
      stored ← read_n n xs >>= store_at node.bytes end
      some (record node { bytes = stored; size = (node.size + n) % 2 ^ 16 }, drop n xs))
    else some (node, xs)

-- The same for the tail.
append_to_tail : List Node → List ℕ → Option (List Node × List ℕ)
append_to_tail [] xs = none
append_to_tail (node ∷ []) xs = do (node', rest) ← fill_node node xs; some (node' ∷ [], rest)
append_to_tail (node ∷ next ∷ nodes) xs = do
  (chain, rest) ← append_to_tail (next ∷ nodes) xs
  some (node ∷ chain, rest)

-- The loop that creates nodes, from node number `count` on. Every round takes at least one byte, so
-- the number of bytes is enough fuel.
new_nodes : ℕ → (ℕ → Node) → ℕ → List ℕ → Option (List Node)
new_nodes fuel malloc count [] = some []
new_nodes zero malloc count (x ∷ xs) = none
new_nodes (suc fuel) malloc count (x ∷ xs) = do
  let n = min (length (x ∷ xs)) node_capacity
  stored ← read_n n (x ∷ xs) >>= store_at (malloc count).bytes 0
  rest ← new_nodes fuel malloc (count + 1) (drop n (x ∷ xs))
  some (record { bytes = stored; size = n; offset = 0 } ∷ rest)

unfoldable pub linked_buffer_push : (ℕ → Node) → LinkedBuffer → List ℕ → ℕ → Option LinkedBuffer
unfolding fill_node append_to_tail new_nodes store_at
linked_buffer_push malloc b data' size = if size == 0 then some b else (do
  xs ← read_n size data'
  (chain, rest) ← append_to_tail b.chain xs
  new ← new_nodes (length rest) malloc b.nodes rest
  some (record { nodes = (b.nodes + length new) % 2 ^ 32; chain = chain ++ new }))

-- The loop from the head on: the bytes copied, the nodes left and the number of nodes removed. A node
-- that is not emptied is the last, since the request is then met.
pop_nodes : List Node → ℕ → Option (List ℕ × List Node × ℕ)
pop_nodes [] remaining = some ([], [], 0)
pop_nodes (node ∷ nodes) remaining =
    let n = min node.size remaining in
    if remaining == 0 then some ([], node ∷ nodes, 0) else (do
      copied ← read_n n (drop node.offset node.bytes)
      if ltb n node.size
          then some
              (copied, record node { size = node.size - n; offset = node.offset + n } ∷ nodes, 0)
          else (do
            (more, chain, removed) ← pop_nodes nodes (remaining - n)
            some (copied ++ more, chain, removed + 1)))

-- The buffer is empty when its only node is.
is_empty : LinkedBuffer → Bool
is_empty b = b.nodes == 1 && elim b.chain [ [] ↦ false | node ∷ _ ↦ node.size == 0 ]

-- With the bytes written to `data`, whose number is the result of the code.
unfoldable pub linked_buffer_pop : (ℕ → Node) → LinkedBuffer → ℕ → Option (LinkedBuffer × List ℕ)
unfolding pop_nodes is_empty linked_buffer_init
linked_buffer_pop malloc b size =
    if size == 0 then some (b, []) else if is_empty b then some (b, []) else (do
      (copied, chain, removed) ← pop_nodes b.chain size
      let nodes = (b.nodes + 2 ^ 32 - removed) % 2 ^ 32
      some (
        if nodes == 0 then linked_buffer_init malloc else record { nodes = nodes; chain = chain },
        copied,
      ))
