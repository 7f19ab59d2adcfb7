-- ===== src/Libc/Console/Fill.antt =====
-- The loops of `clrscr` and `scrollback`, offset by offset.
use netclover.Prelude.{
  ℕ, ◌+◌, ◌-◌, ◌*◌, ◌%◌, ◌^◌, ◌≤◌, ◌<◌, ◌≡◌, ◌⊎◌, refl, arith, ◌==◌, if◌then◌else◌, count_up,
  count_up_inv,
}
use netclover.Libc.Console.{Console, default_color, blank_cell, copy_cell, blank_row, copy_row}

-- From `s` to `s'` the bytes in `[lo, hi)` have become those of `f`, and nothing else changed.
pub record IsFilled (f : ℕ → ℕ) (lo hi : ℕ) (s s' : Console) : Type 0 where
  pub inside : (o : ℕ) → lo ≤ o → o < hi → s'.screen_buffer o ≡ f o
  pub outside : (o : ℕ) → (o < lo) ⊎ (hi ≤ o) → s'.screen_buffer o ≡ s.screen_buffer o
  pub same_x : s'.screen_x ≡ s.screen_x
  pub same_y : s'.screen_y ≡ s.screen_y
  pub same_ports : s'.ports ≡ s.ports

pub IsFilled-nothing : (f : ℕ → ℕ) (lo : ℕ) (s : Console) → IsFilled f lo lo s s
IsFilled-nothing f lo s = record {
  inside = λ o p q. absurd (omega arith);
  outside = λ o p. refl;
  same_x = refl;
  same_y = refl;
  same_ports = refl;
}

-- What `scrollback` moves to an offset.
abbrev pub below : ℕ → Console → ℕ → ℕ
below lines s o = s.screen_buffer (o + 160 * lines)

-- What `clrscr` writes: the character 0 and the default colour.
abbrev pub blank : ℕ → ℕ
blank o = if o % 2 == 0 then 0 else default_color

-- One more cell is copied, or blanked.
module _ {f : ℕ → ℕ} {lo hi : ℕ} {s s' : Console} (h : IsFilled f lo hi s s') where
  copy_cell-IsFilled :
      (lines x y : ℕ)
      → x < 80
      → lines ≤ y
      → y < 2 ^ 16
      → hi ≡ 160 * (y - lines) + 2 * x
      → lo ≤ hi
      → f hi ≡ s.screen_buffer (hi + 160 * lines)
      → f (hi + 1) ≡ s.screen_buffer (hi + 1 + 160 * lines)
      → IsFilled f lo (hi + 2) s (copy_cell lines y x s')
  unfolding copy_cell
  copy_cell-IsFilled lines x y hx hl hy e le chr color = record {
    inside = λ o p q.
        ground (arith, h.inside o, h.outside (hi + 160 * lines), h.outside (hi + 1 + 160 * lines));
    outside = λ o p. ground (arith, h.outside o);
    same_x = h.same_x;
    same_y = h.same_y;
    same_ports = h.same_ports;
  }

  blank_cell-IsFilled :
      (x y : ℕ)
      → x < 80
      → y < 2 ^ 16
      → hi ≡ 160 * y + 2 * x
      → lo ≤ hi
      → f hi ≡ 0
      → f (hi + 1) ≡ default_color
      → IsFilled f lo (hi + 2) s (blank_cell y x s')
  unfolding blank_cell
  blank_cell-IsFilled x y hx hy e le chr color = record {
    inside = λ o p q. ground (arith, h.inside o);
    outside = λ o p. ground (arith, h.outside o);
    same_x = h.same_x;
    same_y = h.same_y;
    same_ports = h.same_ports;
  }

-- The end of a filled range, by an equation.
IsFilled-end :
    {f : ℕ → ℕ} {lo hi hi' : ℕ} {s s' : Console}
    → hi ≡ hi'
    → IsFilled f lo hi s s'
    → IsFilled f lo hi' s s'
IsFilled-end {f} {lo} {s} {s'} e h = rw e at h

copy_row-IsFilled :
    (lines y : ℕ) {s s' : Console}
    → lines ≤ y
    → y < 2 ^ 16
    → IsFilled (below lines s) 0 (160 * (y - lines)) s s'
    → IsFilled (below lines s) 0 (160 * (y + 1 - lines)) s (copy_row lines y s')
unfolding copy_row
copy_row-IsFilled lines y {s} {s'} hl hy h =
    IsFilled-end {hi = 160 * (y - lines) + 2 * 80} (omega arith) (
      count_up_inv (copy_cell lines y)
        (λ x t. IsFilled (below lines s) 0 (160 * (y - lines) + 2 * x) s t) 80
        (λ x t hx ht.
          IsFilled-end (omega arith)
            (copy_cell-IsFilled ht lines x y hx hl hy refl (omega arith) refl refl))
        80 0 s' (omega arith) (IsFilled-end (omega arith) h))

blank_row-IsFilled :
    (lo y : ℕ) {s s' : Console}
    → y < 2 ^ 16
    → lo ≤ 160 * y
    → IsFilled blank lo (160 * y) s s'
    → IsFilled blank lo (160 * (y + 1)) s (blank_row y s')
unfolding blank_row
blank_row-IsFilled lo y {s} {s'} hy le h = IsFilled-end {hi = 160 * y + 2 * 80} (omega arith) (
    count_up_inv (blank_cell y) (λ x t. IsFilled blank lo (160 * y + 2 * x) s t) 80
      (λ x t hx ht.
        IsFilled-end (omega arith)
          (blank_cell-IsFilled ht x y hx hy refl (omega arith) (ground arith) (ground arith)))
      80 0 s' (omega arith) (IsFilled-end (omega arith) h))

-- The rows from `lines` to `height - 1` move up by `lines`.
pub copy_rows-IsFilled :
    (height lines : ℕ) (s : Console)
    → height < 2 ^ 16
    → lines ≤ height
    → IsFilled
        (below lines s)
        0
        (160 * (height - lines))
        s
        (count_up (copy_row lines) (height - lines) lines s)
copy_rows-IsFilled height lines s hh hl =
    (count_up_inv (copy_row lines)
      (λ y t. (lines ≤ y) × IsFilled (below lines s) 0 (160 * (y - lines)) s t) height
      (λ y t hy ht. (omega arith, copy_row-IsFilled lines y ht.0 (omega arith) ht.1))
      (height - lines) lines s (omega arith)
      (omega arith, IsFilled-end (omega arith) (IsFilled-nothing (below lines s) 0 s))).1

-- The rows from `start` to `height - 1` become blank.
pub blank_rows-IsFilled :
    (height start : ℕ) (s : Console)
    → height < 2 ^ 16
    → start ≤ height
    → IsFilled blank (160 * start) (160 * height) s (count_up blank_row (height - start) start s)
blank_rows-IsFilled height start s hh hs =
    (count_up_inv blank_row (λ y t. (start ≤ y) × IsFilled blank (160 * start) (160 * y) s t) height
      (λ y t hy ht.
        (omega arith, blank_row-IsFilled (160 * start) y (omega arith) (omega arith) ht.1))
      (height - start) start s (omega arith)
      (omega arith, IsFilled-nothing blank (160 * start) s)).1
