-- ===== src/LinkedBuffer/Pop.antt =====
-- `ds_linked_buffer_pop` takes from the front of what the buffer holds.
use modemstuff.Base.{
  take-take, take-drop, drop-drop, take_within, drop_within, take_beyond, drop_beyond, take_nothing,
  drop_past, ℕ, zero, suc, ◌+◌, ◌-◌, ◌%◌, ◌^◌, ◌≤◌, ◌<◌, ◌≡◌, refl, sym, ap, ◌∙◌, inl, inr, true,
  Bool-cases, min, List, [], ◌∷◌, ◌++◌, some, arith, All, length, length-drop, take, drop,
  read_n-take, ltb, ◌==◌,
}
use modemstuff.LinkedBuffer.{
  Node, LinkedBuffer, pop_nodes, is_empty, linked_buffer_init, linked_buffer_pop,
}
use modemstuff.LinkedBuffer.Contents.{
  content, contents, Fits, IsValid, IsMemory, length-content, linked_buffer_init-IsValid,
}

-- The two parts of a node's content.
take-content :
    (node : Node) (n : ℕ)
    → n ≤ node.size
    → take n (content node) ≡ take n (drop node.offset node.bytes)
take-content node n h = take-take n node.size (drop node.offset node.bytes) h

drop-content :
    (node : Node) (n : ℕ)
    → n ≤ node.size
    → drop n (content node) ≡ take (node.size - n) (drop (node.offset + n) node.bytes)
drop-content node n h =
    sym (take-drop n (node.size - n) node.size (drop node.offset node.bytes) (omega arith))
    ∙ ap (take (node.size - n)) (drop-drop node.offset n (node.offset + n) node.bytes refl)

enough :
    (node : Node) (n : ℕ) → Fits node → n ≤ node.size → n ≤ length (drop node.offset node.bytes)
enough node n (len, inl z) h = omega arith
enough node n (len, inr fits) h = omega (arith, length-drop node.offset node.bytes)

left-Fits :
    (node : Node) (n : ℕ)
    → Fits node
    → n < node.size
    → Fits (record node { size = node.size - n; offset = node.offset + n })
left-Fits node n (len, inl z) h = absurd (omega arith)
left-Fits node n (len, inr fits) h = (len, inr (omega arith))

pop_nodes_lem :
    (chain : List Node) (remaining : ℕ)
    → All Fits chain
    → (copied : List ℕ) × ((chain' : List Node) × ((removed : ℕ) × (pop_nodes chain remaining
            ≡ some (copied, chain', removed))
          × All Fits chain'
          × (copied ≡ take remaining (contents chain))
          × (contents chain' ≡ drop remaining (contents chain))
          × (length chain' + removed ≡ length chain)))
unfolding pop_nodes
pop_nodes_lem [] zero f = ([], ([], (0, refl, tt, refl, refl, refl)))
pop_nodes_lem [] (suc remaining) f = ([], ([], (0, refl, tt, refl, refl, refl)))
pop_nodes_lem (node ∷ nodes) remaining f =
    let n = min node.size remaining in
    let c = content node in
    let others = contents nodes in
    let len = length-content node f.0 in
    let read = read_n-take n (drop node.offset node.bytes) (enough node n f.0 (omega arith)) in
    elim (Bool-cases (remaining == 0)) [
      | inl z ↦
          let none_there : remaining ≡ 0 = ground arith in
          ([], (node ∷ nodes, (0, rw z, f, rw none_there refl, rw none_there refl, omega arith)))
      | inr more ↦ elim (Bool-cases (ltb n node.size)) [
        | inl partial ↦
            let short : n < node.size = ground arith in
            let all : remaining ≡ n = omega arith in
            (
              take n (drop node.offset node.bytes),
              (
                record node { size = node.size - n; offset = node.offset + n } ∷ nodes,
                (
                  0,
                  rw (more, read, partial),
                  (left-Fits node n f.0 short, f.1),
                  sym (take_within n c others (omega arith) ∙ take-content node n (omega arith))
                      ∙ ap (λ (r : ℕ). take r (c ++ others)) (sym all),
                  sym (
                        drop_within n c others (omega arith)
                        ∙ ap (λ u. u ++ others) (drop-content node n (omega arith)))
                      ∙ ap (λ (r : ℕ). drop r (c ++ others)) (sym all),
                  omega arith,
                ),
              ),
            )
        | inr whole ↦
            let same : n ≡ node.size = ground arith in
            let left : remaining - length c ≡ remaining - n = omega arith in
            let (copied, (chain, (removed, e, g, t, d, count))) =
              pop_nodes_lem nodes (remaining - n) f.1 in
            (
              take n (drop node.offset node.bytes) ++ copied,
              (
                chain,
                (
                  removed + 1,
                  rw (more, read, whole, e),
                  g,
                  ap (λ (k : ℕ). take k (drop node.offset node.bytes) ++ copied) same
                      ∙ ap (λ u. c ++ u) (t ∙ ap (λ (k : ℕ). take k others) (sym left))
                      ∙ sym (take_beyond remaining c others (omega arith)),
                  d
                      ∙ ap (λ (k : ℕ). drop k others) (sym left)
                      ∙ sym (drop_beyond remaining c others (omega arith)),
                  omega arith,
                ),
              ),
            )
      ]
    ]

lone-contents :
    (nodes : ℕ) (chain : List Node)
    → nodes ≡ length chain
    → is_empty (record { nodes = nodes; chain = chain }) ≡ true
    → contents chain ≡ []
unfolding is_empty
lone-contents nodes [] h e = refl
lone-contents nodes (node ∷ []) h e =
    let none_there : node.size ≡ 0 = ground arith in rw none_there refl
lone-contents nodes (node ∷ next ∷ rest) h e = absurd (ground arith)

no_nodes-contents : (chain : List Node) → length chain ≡ 0 → contents chain ≡ []
no_nodes-contents [] h = refl
no_nodes-contents (node ∷ nodes) h = absurd (omega arith)

pub init-contents : (malloc : ℕ → Node) → contents (linked_buffer_init malloc).chain ≡ []
unfolding linked_buffer_init
init-contents malloc = refl

-- The test for emptiness is right.
is_empty-contents : (b : LinkedBuffer) → IsValid b → is_empty b ≡ true → contents b.chain ≡ []
unfolding is_empty
is_empty-contents b v e = lone-contents b.nodes b.chain v.count e

-- Popping from a well-formed buffer takes no fault, gives as many bytes as are asked for and there,
-- from the front, and leaves the rest in a well-formed buffer of no more nodes than before.
pub linked_buffer_pop-contents :
    (malloc : ℕ → Node) (b : LinkedBuffer) (size : ℕ)
    → IsMemory malloc
    → IsValid b
    → (b' : LinkedBuffer) × (linked_buffer_pop malloc b size
        ≡ some (b', take size (contents b.chain)))
      × IsValid b'
      × (contents b'.chain ≡ drop size (contents b.chain))
      × (length b'.chain ≤ length b.chain)
unfolding linked_buffer_pop
linked_buffer_pop-contents malloc b size m v = elim (Bool-cases (size == 0)) [
  | inl z ↦
      let none_there : size ≡ 0 = ground arith in
      (b, rw none_there refl, v, rw none_there refl, omega arith)
  | inr more ↦ elim (Bool-cases (is_empty b)) [
    | inl nothing ↦
        let held = is_empty-contents b v nothing in
        (
          b,
          rw (more, nothing)
              (ap (λ u. some (b, u)) (sym (ap (take size) held ∙ take_nothing size))),
          v,
          held ∙ sym (ap (drop size) held ∙ drop_past size [] (omega arith)),
          omega arith,
        )
    | inr something ↦
        let (copied, (chain, (removed, e, f, t, d, count))) = pop_nodes_lem b.chain size v.fit in
        let nodes = (b.nodes + 2 ^ 32 - removed) % 2 ^ 32 in
        let left : nodes ≡ length chain = omega (arith, v.count, v.few_nodes) in
        elim (Bool-cases (nodes == 0)) [
          | inl gone ↦ (
            linked_buffer_init malloc,
            rw (more, something, e, gone) (ap (λ u. some (linked_buffer_init malloc, u)) t),
            linked_buffer_init-IsValid malloc m,
            init-contents malloc ∙ sym (no_nodes-contents chain (ground arith)) ∙ d,
            unfold linked_buffer_init in omega (arith, v.some_node),
          )
          | inr stay ↦ (
            record { nodes = nodes; chain = chain },
            rw (more, something, e, stay)
                (ap (λ u. some (record { nodes = nodes; chain = chain }, u)) t),
            record {
              count = left;
              some_node = ground arith;
              few_nodes = omega (arith, v.few_nodes);
              fit = f;
            },
            d,
            omega arith,
          )
        ]
  ]
]
