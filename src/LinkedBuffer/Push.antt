-- ===== src/LinkedBuffer/Push.antt =====
-- `ds_linked_buffer_push` puts its data behind what the buffer holds.
use modemstuff.Base.{
  take-drop, drop-append, ℕ, zero, suc, ◌+◌, ◌-◌, ◌%◌, ◌^◌, ◌≤◌, ◌<◌, ◌≡◌, refl, sym, ap, ◌∙◌, inl,
  inr, Bool-cases, min, List, [], ◌∷◌, ◌++◌, append_assoc, append-nil, some, arith, All, All-append,
  length, length-append, length-take, length-drop, take, drop, take-append-drop, read_n-take, ltb,
  ◌==◌,
}
use modemstuff.LinkedBuffer.{
  Node, LinkedBuffer, node_capacity, fill_node, append_to_tail, new_nodes, linked_buffer_push,
}
use modemstuff.LinkedBuffer.Copy.{store_at_lem}
use modemstuff.LinkedBuffer.Contents.{content, contents, Fits, IsValid, IsMemory, contents-append}

-- What a copy behind the used part adds to it.
stored-content :
    (data' stored xs : List ℕ) (offset size k : ℕ)
    → k ≡ offset + size + length xs
    → offset + size ≤ length data'
    → take k stored ≡ take (offset + size) data' ++ xs
    → take (size + length xs) (drop offset stored) ≡ take size (drop offset data') ++ xs
stored-content data' stored xs offset size k e h t =
    let front = take (offset + size) data' in
    let len : length front ≡ offset + size = length-take (offset + size) data' h in
    let none_left : offset - length front ≡ 0 = omega arith in
    take-drop offset (size + length xs) k stored (omega arith)
    ∙ ap (drop offset) t
    ∙ drop-append offset front xs
    ∙ rw none_left (ap (λ u. u ++ xs) (sym (take-drop offset size (offset + size) data' refl)))

fill_node_lem :
    (node : Node) (xs : List ℕ)
    → Fits node
    → (node' : Node) × ((rest : List ℕ) × (fill_node node xs ≡ some (node', rest))
        × Fits node'
        × (content node' ++ rest ≡ content node ++ xs)
        × (length rest ≤ length xs))
unfolding fill_node
fill_node_lem node xs f =
    let end = node.offset + node.size in
    let n = min (length xs) (node_capacity - end) in
    elim (Bool-cases (ltb end node_capacity)) [
      | inr full ↦ (node, (xs, rw full, f, refl, omega arith))
      | inl room ↦
          let short : end < 1024 = ground arith in
          let len : length (take n xs) ≡ n = length-take n xs (omega arith) in
          let (stored, g, same, t) =
            store_at_lem node.bytes end (take n xs) (end + n) (omega arith) (omega (arith, f.0)) in
          let wide : (node.size + n) % 2 ^ 16 ≡ node.size + length (take n xs) = omega arith in
          let node' : Node = record node { bytes = stored; size = (node.size + n) % 2 ^ 16 } in
          let inside =
            stored-content node.bytes stored (take n xs) node.offset node.size (end + n)
              (omega arith) (omega (arith, f.0)) t in
          (
            node',
            (
              drop n xs,
              rw (room, read_n-take n xs (omega arith), g),
              (same ∙ f.0, inr (omega arith)),
              rw
                  (
                    wide,
                    inside,
                    append_assoc (content node) (take n xs) (drop n xs),
                    take-append-drop n xs,
                  )
                  refl,
              omega (arith, length-drop n xs),
            ),
          )
    ]

append_to_tail_lem :
    (chain : List Node) (xs : List ℕ)
    → 1 ≤ length chain
    → All Fits chain
    → (chain' : List Node) × ((rest : List ℕ) × (append_to_tail chain xs ≡ some (chain', rest))
        × All Fits chain'
        × (length chain' ≡ length chain)
        × (contents chain' ++ rest ≡ contents chain ++ xs)
        × (length rest ≤ length xs))
unfolding append_to_tail
append_to_tail_lem [] xs h f = absurd (omega arith)
append_to_tail_lem (node ∷ []) xs h f =
    let (node', (rest, e, g, same, short)) = fill_node_lem node xs f.0 in
    (
      node' ∷ [],
      (
        rest,
        rw e,
        (g, tt),
        refl,
        rw (append-nil (content node'), append-nil (content node)) same,
        short,
      ),
    )
append_to_tail_lem (node ∷ next ∷ nodes) xs h f =
    let (chain', (rest, e, g, len, same, short)) =
      append_to_tail_lem (next ∷ nodes) xs (omega arith) f.1 in
    (
      node ∷ chain',
      (
        rest,
        rw e,
        (f.0, g),
        omega arith,
        append_assoc (content node) (contents chain') rest
            ∙ ap (λ u. content node ++ u) same
            ∙ sym (append_assoc (content node) (contents (next ∷ nodes)) xs),
        short,
      ),
    )

new_nodes_lem :
    (fuel : ℕ) (malloc : ℕ → Node) (count : ℕ) (xs : List ℕ)
    → IsMemory malloc
    → length xs ≤ fuel
    → (new : List Node) × (new_nodes fuel malloc count xs ≡ some new)
      × All Fits new
      × (contents new ≡ xs)
      × (length new ≤ length xs)
unfolding new_nodes
new_nodes_lem fuel malloc count [] m h = ([], refl, tt, refl, omega arith)
new_nodes_lem zero malloc count (x ∷ xs) m h = absurd (omega arith)
new_nodes_lem (suc fuel) malloc count (x ∷ xs) m h =
    let ys = x ∷ xs in
    let n = min (length ys) node_capacity in
    let array = (malloc count).bytes in
    let len : length (take n ys) ≡ n = length-take n ys (omega arith) in
    let (stored, g, same, t) =
      store_at_lem array 0 (take n ys) n (omega arith) (omega (arith, m count)) in
    let (rest, e, f, held, short) =
      new_nodes_lem fuel malloc (count + 1) (drop n ys) m (omega (arith, length-drop n ys)) in
    (
      record { bytes = stored; size = n; offset = 0 } ∷ rest,
      rw (read_n-take n ys (omega arith), g, e),
      ((same ∙ m count, inr (omega arith)), f),
      rw (t, held) (take-append-drop n ys),
      omega (arith, length-drop n ys),
    )

-- Pushing as many bytes as the data has, onto a well-formed buffer that stays below 2^32 nodes,
-- takes no fault and leaves a well-formed buffer that holds what it held and then these bytes,
-- with at most one node more for each byte, whatever the memory held that the allocations gave.
pub linked_buffer_push-contents :
    (malloc : ℕ → Node) (b : LinkedBuffer) (data' : List ℕ) (size : ℕ)
    → IsMemory malloc
    → IsValid b
    → size ≤ length data'
    → length b.chain + size < 2 ^ 32
    → (b' : LinkedBuffer) × (linked_buffer_push malloc b data' size ≡ some b')
      × IsValid b'
      × (contents b'.chain ≡ contents b.chain ++ take size data')
      × (length b'.chain ≤ length b.chain + size)
unfolding linked_buffer_push
linked_buffer_push-contents malloc b data' size m v h few = elim (Bool-cases (size == 0)) [
  | inl z ↦
      let none_there : size ≡ 0 = ground arith in
      (b, rw z, v, rw none_there (sym (append-nil (contents b.chain))), omega arith)
  | inr more ↦
      let xs = take size data' in
      let len : length xs ≡ size = length-take size data' h in
      let (chain, (rest, e, f, same, held, short)) =
        append_to_tail_lem b.chain xs v.some_node v.fit in
      let (new, g, f', held', short') =
        new_nodes_lem (length rest) malloc b.nodes rest m (omega arith) in
      let b' : LinkedBuffer = record {
        nodes = (b.nodes + length new) % 2 ^ 32;
        chain = chain ++ new;
      } in
      (
        b',
        rw (more, read_n-take size data' h, e, g),
        record {
          count = omega (arith, v.count, length-append chain new);
          some_node = omega (arith, v.some_node, length-append chain new);
          few_nodes = omega (arith, length-append chain new);
          fit = All-append Fits chain new f f';
        },
        contents-append chain new ∙ rw held' held,
        omega (arith, length-append chain new),
      )
]
