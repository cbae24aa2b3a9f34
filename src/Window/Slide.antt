-- ===== src/Window/Slide.antt =====
-- The window holds the last samples, whatever the memory behind the buffer holds.
use modemstuff.Base.{
  ℕ, zero, suc, ◌+◌, ◌-◌, ◌*◌, ◌≤◌, ◌<◌, ◌≡◌, refl, sym, ap, ◌∙◌, inl, inr, true, false, Bool-cases,
  List, [], ◌∷◌, ◌++◌, append_assoc, append-nil, Option, some, arith, length, length-append,
  length-take, length-drop, length-set, length-replicate, take, drop, take_at, take-drop, drop-drop,
  drop_within, take-set_end, take_past, replicate, read_n-take, set, ltb, ◌==◌, ◌>>=◌,
}
use native.Mathlib.Nat.{mul-le-mul_left}
use modemstuff.Window.{
  Window, window_init, copy_down, put_sample, moved_tail, window_push, contents,
}

moved_tail_lem : (size : ℕ) → 1 ≤ size → moved_tail size ≡ some (size - 1)
unfolding moved_tail
moved_tail_lem zero h = absurd (omega arith)
moved_tail_lem (suc n) h = ap some (omega arith)

module _ {ℓ} {A : Type ℓ} where
  -- A window of at least one sample with room to move it down without an overlap.
  pub record IsValid (w : Window A) : Type ℓ where
    pub array : length w.buf ≡ w.buf_size
    pub span : w.tail ≡ w.head + w.size
    pub inside : w.tail ≤ w.buf_size
    pub some_size : 1 ≤ w.size
    pub room : 2 * w.size < w.buf_size

  -- A sample put behind the window, which moves up by one.
  slide :
      (buf : List A) (head size end : ℕ) (x : A)
      → end ≡ head + size
      → 1 ≤ size
      → end < length buf
      → take size (drop (head + 1) (set buf end x)) ≡ drop 1 (take size (drop head buf)) ++ (x ∷ [])
  slide buf head size end x e s h =
      let front = take end buf in
      let len : length front ≡ end = length-take end buf (omega arith) in
      take-drop (head + 1) size (suc end) (set buf end x) (omega arith)
      ∙ ap (drop (head + 1)) (take-set_end buf end x h)
      ∙ drop_within (head + 1) front (x ∷ []) (omega arith)
      ∙ ap (λ u. u ++ (x ∷ []))
          (sym (drop-drop head 1 (head + 1) front refl)
            ∙ ap (drop 1) (sym (take-drop head size end buf e)))

  -- The window moved down, with a sample in place of the one from behind the buffer.
  move_down :
      (buf rest behind : List A) (b : A) (head size n : ℕ) (x : A)
      → length buf ≡ head + size
      → size ≡ suc n
      → take size (set (take size (drop (head + 1) (buf ++ (b ∷ behind))) ++ rest) n x)
        ≡ drop 1 (take size (drop head buf)) ++ (x ∷ [])
  move_down buf rest behind b head size n x len s =
      let inner = drop (head + 1) buf in
      let count : length inner ≡ n = omega (arith, length-drop (head + 1) buf) in
      let copied : take size (drop (head + 1) (buf ++ (b ∷ behind))) ≡ inner ++ (b ∷ []) =
        ap (take size) (
          drop_within (head + 1) buf (b ∷ behind) (omega arith)
          ∙ sym (append_assoc inner (b ∷ []) behind))
        ∙ take_at size (inner ++ (b ∷ [])) behind (omega (arith, length-append inner (b ∷ []))) in
      let moved = (inner ++ (b ∷ [])) ++ rest in
      let long : n < length moved =
        omega (arith, length-append inner (b ∷ []), length-append (inner ++ (b ∷ [])) rest) in
      let kept : take n moved ≡ inner =
        ap (take n) (append_assoc inner (b ∷ []) rest) ∙ take_at n inner _ count in
      let whole : take size (drop head buf) ≡ drop head buf =
        take_past size (drop head buf) (omega (arith, length-drop head buf)) in
      rw copied (
        ap (λ (k : ℕ). take k (set moved n x)) s
        ∙ take-set_end moved n x long
        ∙ ap (λ u. u ++ (x ∷ []))
            (kept ∙ sym (ap (drop 1) whole ∙ drop-drop head 1 (head + 1) buf refl)))

  window_push-contents :
      (b : A) (behind : List A) (w : Window A) (x : A)
      → IsValid w
      → (w' : Window A) × (window_push (b ∷ behind) w x ≡ some w')
        × IsValid w'
        × (contents w' ≡ drop 1 (contents w) ++ (x ∷ []))
        × (w'.size ≡ w.size)
  unfolding window_push put_sample copy_down
  window_push-contents b behind w x v = elim (Bool-cases (w.head + w.size == w.buf_size)) [
    | inr more ↦
        let inside : w.tail < length w.buf = ground (arith, v.array, v.span, v.inside) in
        let test : ltb w.tail (length w.buf) ≡ true = ground arith in
        (
          record w { buf = set w.buf w.tail x; head = w.head + 1; tail = w.tail + 1 },
          rw (more, test),
          record {
            array = length-set w.buf w.tail x ∙ v.array;
            span = omega (arith, v.span);
            inside = omega (arith, v.array);
            some_size = v.some_size;
            room = v.room;
          },
          slide w.buf w.head w.size w.tail x v.span v.some_size inside,
          refl,
        )
    | inl full ↦
        let at_end : w.head + w.size ≡ w.buf_size = ground arith in
        let from = w.head + 1 in
        let apart : ltb from w.size ≡ false = ground (arith, v.room) in
        let memory = w.buf ++ (b ∷ behind) in
        let read = read_n-take w.size (drop from memory) (
          omega
            (arith, v.array, v.room, length-drop from memory, length-append w.buf (b ∷ behind))) in
        let copied = take w.size (drop from memory) in
        let rest = drop w.size w.buf in
        let moved = copied ++ rest in
        let count : length copied ≡ w.size = length-take w.size (drop from memory) (
          omega
            (arith, v.array, v.room, length-drop from memory, length-append w.buf (b ∷ behind))) in
        let long : length moved ≡ w.buf_size =
          omega (arith, length-append copied rest, length-drop w.size w.buf, v.array, v.room) in
        let test : ltb (w.size - 1) (length moved) ≡ true = ground (arith, v.room) in
        (
          record w { buf = set moved (w.size - 1) x; head = 0; tail = w.size - 1 + 1 },
          rw (full, apart, read, moved_tail_lem w.size v.some_size, test),
          record {
            array = length-set moved (w.size - 1) x ∙ long;
            span = omega (arith, v.some_size);
            inside = omega (arith, v.some_size, v.room);
            some_size = v.some_size;
            room = v.room;
          },
          move_down w.buf rest behind b w.head w.size (w.size - 1) x
              (omega (arith, v.array, v.room)) (omega (arith, v.some_size)),
          refl,
        )
  ]

  window_init-IsValid :
      (silence : A) (malloc : ℕ → List A) (size oversizing : ℕ)
      → ((n : ℕ) → length (malloc n) ≡ n)
      → 1 ≤ size
      → 2 ≤ oversizing
      → (w : Window A) × (window_init silence malloc size oversizing ≡ some w)
        × IsValid w
        × (contents w ≡ replicate size silence)
  unfolding window_init
  window_init-IsValid silence malloc size oversizing m s o =
      let n = size * oversizing + 1 in
      let zeros = replicate size silence in
      let rest = drop size (malloc n) in
      let twice : 2 * size ≤ size * oversizing = omega (arith, mul-le-mul_left size o) in
      let fits : ltb n size ≡ false = ground arith in
      (
        record { buf = zeros ++ rest; buf_size = n; size = size; head = 0; tail = size },
        rw fits,
        record {
          array = omega (
            arith,
            length-append zeros rest,
            length-replicate size silence,
            length-drop size (malloc n),
            m n,
          );
          span = omega arith;
          inside = omega arith;
          some_size = s;
          room = omega arith;
        },
        take_at size zeros rest (length-replicate size silence),
      )

  -- A sequence of pushes.
  unfoldable pub push_all : List A → Window A → List A → Option (Window A)
  push_all behind w [] = some w
  push_all behind w (x ∷ xs) = do w' ← window_push behind w x; push_all behind w' xs

  push_all_lem :
      (b : A) (behind : List A) (xs : List A) (w : Window A)
      → IsValid w
      → (w' : Window A) × (push_all (b ∷ behind) w xs ≡ some w')
        × IsValid w'
        × (contents w' ≡ drop (length xs) (contents w ++ xs))
  unfolding push_all
  push_all_lem b behind [] w v = (w, refl, v, sym (append-nil (contents w)))
  push_all_lem b behind (x ∷ xs) w v =
      let (w', e, v', c, size) = window_push-contents b behind w x v in
      let (last, f, v'', d) = push_all_lem b behind xs w' v' in
      let old = contents w in
      let len : length old ≡ w.size =
        length-take w.size (drop w.head w.buf)
          (omega (arith, v.array, v.span, v.inside, length-drop w.head w.buf)) in
      (
        last,
        rw e f,
        v'',
        d
            ∙ ap (λ u. drop (length xs) (u ++ xs)) c
            ∙ ap (drop (length xs)) (
                append_assoc (drop 1 old) (x ∷ []) xs
                ∙ sym (drop_within 1 old (x ∷ xs) (omega (arith, v.some_size))))
            ∙ drop-drop 1 (length xs) (suc (length xs)) (old ++ (x ∷ xs)) (omega arith),
      )

  -- A window for at least one sample whose buffer is at least twice as large, after any samples: its
  -- contents are the last ones of the silence it began with and these, whatever the memory holds that
  -- the allocation gave and that stands behind it.
  pub push_all-contents :
      (silence b : A) (behind : List A) (malloc : ℕ → List A) (size oversizing : ℕ) (xs : List A)
      → ((n : ℕ) → length (malloc n) ≡ n)
      → 1 ≤ size
      → 2 ≤ oversizing
      → (w : Window A) × ((window_init silence malloc size oversizing >>= λ w₀.
            push_all (b ∷ behind) w₀ xs)
          ≡ some w)
        × (contents w ≡ drop (length xs) (replicate size silence ++ xs))
  push_all-contents silence b behind malloc size oversizing xs m s o =
      let (w₀, i, v₀, c₀) = window_init-IsValid silence malloc size oversizing m s o in
      let (w, e, v, c) = push_all_lem b behind xs w₀ v₀ in
      (w, rw i e, c ∙ ap (λ u. drop (length xs) (u ++ xs)) c₀)
