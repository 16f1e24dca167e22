-- ===== src/Osd/Rect.antt =====
-- plugins/official/osd/osd.cpp: the stores of a rectangle stay in the planes of the image.
use aistream.Base.{
  ℕ, ◌+◌, ◌-◌, ◌*◌, ◌/◌, ◌<◌, ◌≤◌, refl, ◌==◌, if◌then◌else◌, Bool, true, false, arith, ◌||◌, List,
  [], ◌++◌, rounds, All, All-append, All-rounds,
}
use aistream.Osd.{
  Plane, y_plane, uv_plane, u_plane, v_plane, Store, store, Yuv, Format, nv12, yuv420p, fill,
  fill_at, nv12_at, yuv420p_at, y_ends, nv12_ends, yuv420p_ends, y_line, nv12_line, nv12p_set_rect,
  yuv420p_line, yuv420p_set_rect, set_rect,
}

-- The bytes of a plane of an image of w times h pixels.
abbrev pub plane_size : Format → ℕ → ℕ → Plane → ℕ
plane_size nv12 w h y_plane = w * h
plane_size nv12 w h uv_plane = w * h / 2
plane_size nv12 w h u_plane = 0
plane_size nv12 w h v_plane = 0
plane_size yuv420p w h y_plane = w * h
plane_size yuv420p w h uv_plane = 0
plane_size yuv420p w h u_plane = w * h / 4
plane_size yuv420p w h v_plane = w * h / 4

abbrev pub InImage : Format → ℕ → ℕ → Store → Type 0
InImage format w h s = s.offset < plane_size format w h s.plane

pub line-lt : (w i c h : ℕ) → c < w → i < h → w * i + c < w * h
line-lt w i c h hc hi = grind arith

mul-le : (w a b : ℕ) → a ≤ b → w * a ≤ w * b
mul-le w a b h = grind arith

-- The lines of u and v are half of those of y.
half-le : (w h : ℕ) → w * (h / 2) * 2 ≤ w * h
half-le w h = omega (arith, mul-le w (h / 2 * 2) h (omega arith))

pub if_append-All :
    {A : Type 0} (P : A → Type 0) (b : Bool) (xs ys : List A)
    → All P xs
    → All P ys
    → All P ((if b then xs else []) ++ ys)
if_append-All P true xs ys h k = All-append P xs ys h k
if_append-All P false xs ys h k = k

-- A line that ends two bytes before the end of the image's line, above the line number `lines`.
module _ (P : Store → Type 0) (color : Yuv) (img_w lines x w : ℕ) (fits : x + w + 2 ≤ img_w) where
  y_line-All :
      (y h i : ℕ)
      → ((offset value : ℕ) → offset < img_w * lines → P (store y_plane offset value))
      → i < lines
      → All P (y_line color img_w x y w h i)
  unfolding y_line
  y_line-All y h i ok hi =
      let end = line-lt img_w i (x + w + 1) lines (omega arith) hi in
      if_append-All P (i == y || i == y + 1 || i + 1 == y + h || i + 2 == y + h)
        (fill y_plane (img_w * i + x) w color.y) (y_ends color (img_w * i + x) (img_w * i + x + w))
        ((All-rounds P w 0 w (fill_at y_plane (img_w * i + x) color.y) (omega arith)
          (λ k a b. (ok _ _ (omega (arith, end)), tt))))
        (
          ok _ _ (omega (arith, end)),
          (
            ok _ _ (omega (arith, end)),
            (ok _ _ (omega (arith, end)), (ok _ _ (omega (arith, end)), tt)),
          ),
        )

  nv12_line-All :
      (yy hh i : ℕ)
      → ((offset value : ℕ) → offset < img_w * lines → P (store uv_plane offset value))
      → i < lines
      → All P (nv12_line color img_w x w yy hh i)
  unfolding nv12_line
  nv12_line-All yy hh i ok hi =
      let end = line-lt img_w i (x + w + 1) lines (omega arith) hi in
      if_append-All P (i == yy || i + 1 == hh)
        (rounds ((w + 1) / 2) 0 (nv12_at color (img_w * i + x)))
        (nv12_ends color (img_w * i + x) (img_w * i + x + w))
        ((All-rounds P ((w + 1) / 2) 0 ((w + 1) / 2) (nv12_at color (img_w * i + x)) (omega arith)
          (λ k a b. (ok _ _ (omega (arith, end)), (ok _ _ (omega (arith, end)), tt)))))
        (
          ok _ _ (omega (arith, end)),
          (
            ok _ _ (omega (arith, end)),
            (ok _ _ (omega (arith, end)), (ok _ _ (omega (arith, end)), tt)),
          ),
        )

  yuv420p_line-All :
      (yy hh i : ℕ)
      → ((offset value : ℕ)
          → offset < img_w * lines / 2
          → P (store u_plane offset value) × P (store v_plane offset value))
      → i < lines
      → All P (yuv420p_line color img_w x w yy hh i)
  unfolding yuv420p_line
  yuv420p_line-All yy hh i ok hi =
      let end = line-lt img_w i (x + w + 1) lines (omega arith) hi in
      if_append-All P (i == yy || i + 1 == hh)
        (rounds (w / 2) 0 (yuv420p_at color ((img_w * i + x) / 2)))
        (yuv420p_ends color ((img_w * i + x) / 2) ((img_w * i + x) / 2 + w / 2))
        ((All-rounds P (w / 2) 0 (w / 2) (yuv420p_at color ((img_w * i + x) / 2)) (omega arith)
          (λ k a b.
            ((ok _ color.u (omega (arith, end))).0, ((ok _ color.v (omega (arith, end))).1, tt)))))
        (
          (ok _ color.u (omega (arith, end))).0,
          (
            (ok _ color.u (omega (arith, end))).0,
            ((ok _ color.v (omega (arith, end))).1, ((ok _ color.v (omega (arith, end))).1, tt)),
          ),
        )

-- Where a rectangle ends two pixels or more before the right end of the image, and not below its
-- lower end, each byte that is drawn for it lies in its plane of the image.
pub set_rect-InImage :
    (format : Format) (color : Yuv) (img_w img_h x y w h : ℕ)
    → x + w + 2 ≤ img_w
    → y + h ≤ img_h
    → All (InImage format img_w img_h) (set_rect format color img_w x y w h)
unfolding set_rect nv12p_set_rect yuv420p_set_rect
set_rect-InImage nv12 color img_w img_h x y w h hx hy =
    let P = InImage nv12 img_w img_h in
    All-append P (rounds h y (y_line color img_w x y w h))
      (rounds ((y + h) / 2 - y / 2) (y / 2) (nv12_line color img_w x w (y / 2) ((y + h) / 2)))
      (All-rounds P h y (y + h) (y_line color img_w x y w h) refl
        (λ k a b. y_line-All P color img_w img_h x w hx y h k (λ o v l. l) (omega arith)))
      (All-rounds P ((y + h) / 2 - y / 2) (y / 2) ((y + h) / 2)
        (nv12_line color img_w x w (y / 2) ((y + h) / 2)) (omega arith)
        (λ k a b.
          nv12_line-All P color img_w (img_h / 2) x w hx (y / 2) ((y + h) / 2) k
            (λ o v l. omega (arith, half-le img_w img_h)) (omega arith)))
set_rect-InImage yuv420p color img_w img_h x y w h hx hy =
    let P = InImage yuv420p img_w img_h in
    All-append P (rounds h y (y_line color img_w x y w h))
      (rounds ((y + h) / 2 - y / 2) (y / 2) (yuv420p_line color img_w x w (y / 2) ((y + h) / 2)))
      (All-rounds P h y (y + h) (y_line color img_w x y w h) refl
        (λ k a b. y_line-All P color img_w img_h x w hx y h k (λ o v l. l) (omega arith)))
      (All-rounds P ((y + h) / 2 - y / 2) (y / 2) ((y + h) / 2)
        (yuv420p_line color img_w x w (y / 2) ((y + h) / 2)) (omega arith)
        (λ k a b.
          yuv420p_line-All P color img_w (img_h / 2) x w hx (y / 2) ((y + h) / 2) k
            (λ o v l. (omega (arith, half-le img_w img_h), omega (arith, half-le img_w img_h)))
            (omega arith)))
