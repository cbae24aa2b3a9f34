-- ===== src/LinkedBuffer/Contents.antt =====
-- The bytes that a linked buffer holds, and when it is well formed.
use modemstuff.Base.{
  ℕ, ◌+◌, ◌%◌, ◌^◌, ◌≤◌, ◌<◌, ◌≡◌, refl, ◌∙◌, ◌⊎◌, inl, inr, List, [], ◌∷◌, ◌++◌, append_assoc,
  arith, All, length, length-append, length-take, length-drop, take, drop,
}
use modemstuff.LinkedBuffer.{
  Node, LinkedBuffer, node_capacity, linked_buffer_init, linked_buffer_size, sum_sizes,
}

-- What is used of a node's array.
abbrev pub content : Node → List ℕ
content node = take node.size (drop node.offset node.bytes)

abbrev pub contents : List Node → List ℕ
contents [] = []
contents (node ∷ nodes) = content node ++ contents nodes

-- The used part lies in the array; an empty node's offset may be anything.
abbrev pub Fits : Node → Type 0
Fits node =
    (length node.bytes ≡ node_capacity)
    × ((node.size ≡ 0) ⊎ (node.offset + node.size ≤ node_capacity))

pub record IsValid (b : LinkedBuffer) : Type 0 where
  pub count : b.nodes ≡ length b.chain
  pub some_node : 1 ≤ length b.chain
  pub few_nodes : length b.chain < 2 ^ 32
  pub fit : All Fits b.chain

-- Memory for a node.
abbrev pub IsMemory : (ℕ → Node) → Type 0
IsMemory malloc = (i : ℕ) → length (malloc i).bytes ≡ node_capacity

pub length-content : (node : Node) → Fits node → length (content node) ≡ node.size
length-content node (len, inl z) = let same : node.size ≡ 0 = z in rw same refl
length-content node (len, inr fits) =
    length-take node.size (drop node.offset node.bytes)
      (omega (arith, length-drop node.offset node.bytes))

pub contents-append : (xs ys : List Node) → contents (xs ++ ys) ≡ contents xs ++ contents ys
contents-append [] ys = refl
contents-append (x ∷ xs) ys =
    rw (contents-append xs ys, append_assoc (content x) (contents xs) (contents ys)) refl

pub linked_buffer_init-IsValid :
    (malloc : ℕ → Node) → IsMemory malloc → IsValid (linked_buffer_init malloc)
unfolding linked_buffer_init
linked_buffer_init-IsValid malloc h = record {
  count = refl;
  some_node = omega arith;
  few_nodes = omega arith;
  fit = ((h 0, inl refl), tt);
}

sum_sizes-contents :
    (nodes : List Node) (total : ℕ)
    → All Fits nodes
    → total < 2 ^ 32
    → sum_sizes total nodes ≡ (total + length (contents nodes)) % 2 ^ 32
unfolding sum_sizes
sum_sizes-contents [] total h l = omega arith
sum_sizes-contents (node ∷ nodes) total h l =
    sum_sizes-contents nodes ((total + node.size) % 2 ^ 32) h.1 (omega arith)
    ∙ omega (arith, length-append (content node) (contents nodes), length-content node h.0)

-- The size of a well-formed buffer is the number of the bytes it holds, as a 32-bit number.
linked_buffer_size-contents :
    (b : LinkedBuffer) → IsValid b → linked_buffer_size b ≡ length (contents b.chain) % 2 ^ 32
unfolding linked_buffer_size
linked_buffer_size-contents b v = omega (arith, sum_sizes-contents b.chain 0 v.fit (omega arith))
