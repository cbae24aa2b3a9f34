-- ===== src/Window/Examples.antt =====
-- A window of two samples, in memory that holds nines, with an eight behind it.
use modemstuff.Base.{ℕ, ◌+◌, ◌↔◌, ◌≡◌, refl, List, [], ◌∷◌, none, arith, replicate}
use modemstuff.Window.{Window, window_push}
use modemstuff.Window.Slide.{IsValid}
use modemstuff.Window.Overread.{window_push-outside}

abbrev memory : ℕ → List ℕ
memory n = replicate n 9

abbrev at_end : Window ℕ
at_end = record { buf = 0 ∷ 0 ∷ 1 ∷ 2 ∷ 3 ∷ []; buf_size = 5; size = 2; head = 3; tail = 5 }

at_end-IsValid : IsValid at_end
at_end-IsValid = record {
  array = refl;
  span = refl;
  inside = omega arith;
  some_size = omega arith;
  room = omega arith;
}

window_push-outside_example : (window_push [] at_end 4 ≡ none) ↔ (at_end.head + 2 ≡ 5)
window_push-outside_example = window_push-outside at_end 4 at_end-IsValid
