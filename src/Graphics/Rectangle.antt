-- ===== src/Graphics/Rectangle.antt =====
-- graphics.c: what FillRectangle does to each pixel.
use libre_win.Prelude.{
  ℕ, zero, suc, ◌+◌, ◌-◌, ◌*◌, ◌/◌, ◌%◌, ◌^◌, ◌≤◌, ◌<◌, ◌≡◌, refl, sym, ap, ◌∙◌, inl, inr, arith,
  ==_iff, Bool, Bool-cases, true, false, ◌&&◌, ◌==◌, if◌then◌else◌,
}
use native.Mathlib.Nat.{add-mul-div_right, add-mul-mod_self_right, div-eq_of_lt, mod-eq_of_lt}
use libre_win.Config.{u32}
use libre_win.Memory.{Mem, write}
use libre_win.Memory.Laws.{within}
use libre_win.Graphics.{Screen, put_pixel, column_loop, columns_loop, fill_rectangle}

row_of : (w x y : ℕ) → x < w → (y * w + x) / w ≡ y
row_of w x y h =
    ap (λ n. n / w) (swap (y * w) x)
    ∙ (add-mul-div_right x y {z = w} (omega arith) ∙ (ap (λ q. q + y) (div-eq_of_lt h) ∙ plus y))
  where
    swap : (a b : ℕ) → a + b ≡ b + a
    swap a b = omega arith

    plus : (b : ℕ) → 0 + b ≡ b
    plus b = omega arith

column_of : (w x y : ℕ) → x < w → (y * w + x) % w ≡ x
column_of w x y h =
    ap (λ n. n % w) (swap (y * w) x) ∙ (add-mul-mod_self_right x y w ∙ mod-eq_of_lt h)
  where
    swap : (a b : ℕ) → a + b ≡ b + a
    swap a b = omega arith

number_of : (w x y i j : ℕ) → x ≡ i → y ≡ j → y * w + x ≡ j * w + i
number_of w x y i j ex ey = rw (ex, ey) refl

-- Two pixels of the screen have one number only if they are one.
same_pixel : (w x y i j : ℕ) → x < w → i < w → ((y * w + x) == (j * w + i)) ≡ ((x == i) && (y == j))
same_pixel w x y i j hx hi = elim (Bool-cases ((y * w + x) == (j * w + i))) [
  | inl t ↦
      (let e : y * w + x ≡ j * w + i = (==_iff _ _).0 t in
        let column : x ≡ i = sym (column_of w x y hx) ∙ (ap (λ n. n % w) e ∙ column_of w i j hi) in
        let row : y ≡ j = sym (row_of w x y hx) ∙ (ap (λ n. n / w) e ∙ row_of w i j hi) in
        rw t (ground (arith, column, row)))
  | inr f ↦ rw f (differ w x y i j f)
]
  where
    differ : (w x y i j : ℕ) → ((y * w + x) == (j * w + i)) ≡ false → false ≡ ((x == i) && (y == j))
    differ w x y i j f = ground (arith, f, number_of w x y i j)

no_wrap : (n : ℕ) → n < 2 ^ 32 → u32 n ≡ n
no_wrap n h = omega arith

expand : (j left w : ℕ) → (j + suc left) * w ≡ j * w + (w + left * w)
expand j left w = grind arith

shift : (j left : ℕ) → j + 1 + left ≡ j + suc left
shift j left = omega arith

put_pixel_lem :
    (s : Screen) (i j color : ℕ) (buf : Mem) (x y : ℕ)
    → x < s.n_width
    → i < s.n_width
    → j * s.n_width + i < 2 ^ 32
    → put_pixel s i j color buf (y * s.n_width + x)
      ≡ (if (x == i) && (y == j) then color else buf (y * s.n_width + x))
unfolding put_pixel write
put_pixel_lem s i j color buf x y hx hi fit =
    rw (no_wrap (j * s.n_width + i) fit, same_pixel s.n_width x y i j hx hi) refl

in_column :
    (b : Bool) (j left y color rest : ℕ)
    → (if b && within (j + 1) left y then color else if b && (y == j) then color else rest)
      ≡ (if b && within j (suc left) y then color else rest)
in_column false j left y color rest = refl
in_column true j left y color rest = ground arith

-- One column, at a pixel of the screen, where no number wraps around.
column_loop_lem :
    (left : ℕ) (s : Screen) (i j color : ℕ) (buf : Mem) (x y : ℕ)
    → x < s.n_width
    → i < s.n_width
    → j + left < 2 ^ 32
    → (j + left) * s.n_width < 2 ^ 32
    → column_loop left s i j color buf (y * s.n_width + x)
      ≡ (if (x == i) && within j left y then color else buf (y * s.n_width + x))
unfolding column_loop
column_loop_lem zero s i j color buf x y hx hi low fit = ground arith
column_loop_lem (suc left) s i j color buf x y hx hi low fit =
    let w = s.n_width in
    let here : j * w + i < 2 ^ 32 = omega (arith, expand j left w, fit) in
    let next : u32 (j + 1) ≡ j + 1 = omega (arith, low) in
    rw
      (
        next,
        column_loop_lem left s i (j + 1) color (put_pixel s i j color buf) x y hx hi
            (omega (arith, low)) (rw (shift j left) fit),
        put_pixel_lem s i j color buf x y hx hi here,
      )
      (in_column (x == i) j left y color (buf (y * w + x)))

in_columns :
    (b : Bool) (i left x color rest : ℕ)
    → (if within (i + 1) left x && b then color else if (x == i) && b then color else rest)
      ≡ (if within i (suc left) x && b then color else rest)
in_columns false i left x color rest = ground arith
in_columns true i left x color rest = ground arith

rows_left : (y height : ℕ) → y + height < 2 ^ 32 → u32 (y + height) - y ≡ height
rows_left y height h = omega arith

columns_loop_lem :
    (left : ℕ) (s : Screen) (i y0 height color : ℕ) (buf : Mem) (x y : ℕ)
    → x < s.n_width
    → i + left ≤ s.n_width
    → s.n_width < 2 ^ 32
    → y0 + height < 2 ^ 32
    → (y0 + height) * s.n_width < 2 ^ 32
    → columns_loop left s i y0 height color buf (y * s.n_width + x)
      ≡ (if within i left x && within y0 height y then color else buf (y * s.n_width + x))
unfolding columns_loop
columns_loop_lem zero s i y0 height color buf x y hx hi narrow low fit = ground arith
columns_loop_lem (suc left) s i y0 height color buf x y hx hi narrow low fit =
    let w = s.n_width in
    let next : u32 (i + 1) ≡ i + 1 = omega (arith, hi, narrow) in
    rw
      (
        next,
        rows_left y0 height low,
        columns_loop_lem left s (i + 1) y0 height color (column_loop height s i y0 color buf) x y hx
            (omega (arith, hi)) narrow low fit,
        column_loop_lem height s i y0 color buf x y hx (omega (arith, hi)) low fit,
      )
      (in_columns (within y0 height y) i left x color (buf (y * w + x)))

-- FillRectangle of a rectangle that lies within the width of the screen, and whose numbers of pixels fit into 32 bits,
-- gives its color to the pixels of the rectangle and to no other pixel of the screen's width.
pub fill_rectangle_lem :
    (s : Screen) (x0 y0 width height color : ℕ) (buf : Mem) (x y : ℕ)
    → x < s.n_width
    → x0 + width ≤ s.n_width
    → s.n_width < 2 ^ 32
    → y0 + height < 2 ^ 32
    → (y0 + height) * s.n_width < 2 ^ 32
    → fill_rectangle s x0 y0 width height color buf (y * s.n_width + x)
      ≡ (if within x0 width x && within y0 height y then color else buf (y * s.n_width + x))
unfolding fill_rectangle
fill_rectangle_lem s x0 y0 width height color buf x y hx inside narrow low fit =
    rw (rows_left x0 width (omega (arith, inside, narrow)))
      (columns_loop_lem width s x0 y0 height color buf x y hx inside narrow low fit)
