-- ===== src/Osd/Letters.antt =====
-- plugins/official/osd/osd.cpp: the stores of the names, and of all detections of an image.
use aistream.Base.{
  ℕ, ◌+◌, ◌-◌, ◌*◌, ◌/◌, ◌<◌, ◌≤◌, ◌≡◌, refl, ltb, ◌==◌, if◌then◌else◌, Bool, true, false, inl, inr,
  arith, ◌||◌, List, [], ◌∷◌, ◌++◌, All, All-append, All-rounds, Bool-cases, subst, sym,
}
use aistream.Osd.{
  y_plane, Store, store, Yuv, Format, nv12, yuv420p, FontBmp, uv_pixel, letter, letter_line,
  letter_pixel, set_text, set_rect, DetectionResult, OsdConfig, even, set_rect_text,
}
use aistream.Osd.Rect.{InImage, line-lt, set_rect-InImage}

-- An image with an even width and height, as YUV images with half the lines of u and v have.
module _ (format : Format) (color : Yuv) (a b : ℕ) where
  abbrev Inside : Store → Type 0
  Inside = InImage format (2 * a) (2 * b)

  uv_pixel-Inside : (offset : ℕ) → offset < a * b → All Inside (uv_pixel format color offset)
  unfolding uv_pixel
  uv_pixel-Inside offset h = in_format format
    where
      in_format : (f : Format) → All (InImage f (2 * a) (2 * b)) (uv_pixel f color offset)
      in_format nv12 = (omega arith, (omega arith, tt))
      in_format yuv420p = (omega arith, (omega arith, tt))

  y-Inside : (offset value : ℕ) → offset < 2 * a * (2 * b) → Inside (store y_plane offset value)
  y-Inside offset value h = in_format format
    where
      in_format : (f : Format) → InImage f (2 * a) (2 * b) (store y_plane offset value)
      in_format nv12 = h
      in_format yuv420p = h

  module _ (ft_x ft_y : ℕ) (bmp : FontBmp) (hx : ft_x + bmp.w ≤ 2 * a)
      (hy : ft_y + bmp.h ≤ 2 * b) where
    uv-lt :
        (_h _w : ℕ)
        → _h < bmp.h
        → _w < bmp.w
        → 2 * a / 2 * (ft_y / 2 + _h / 2) + ft_x / 2 + _w / 2 < a * b
    uv-lt _h _w lh lw =
        let half : 2 * a / 2 ≡ a = omega arith in
        let l = line-lt a (ft_y / 2 + _h / 2) (ft_x / 2 + _w / 2) b (omega arith) (omega arith) in
        rw half (omega (arith, l))

    pixel-Inside :
        (_h _w : ℕ)
        → _h < bmp.h
        → _w < bmp.w
        → All Inside (letter_pixel format color (2 * a) ft_x ft_y bmp _h _w)
    pixel-Inside _h _w lh lw = elim (Bool-cases (bmp.buf (_h * bmp.w + _w) == 0)) [
      | inl e ↦ rw e tt
      | inr e ↦ rw e (
        y-Inside _ color.y (
            omega
              (arith, line-lt (2 * a) (ft_y + _h) (ft_x + _w) (2 * b) (omega arith) (omega arith))),
        uv_pixel-Inside _ (uv-lt _h _w lh lw),
      )
    ]

    letter-Inside : All Inside (letter format color (2 * a) ft_x ft_y bmp)
    unfolding letter
    letter-Inside =
        All-rounds Inside bmp.h 0 bmp.h (letter_line format color (2 * a) ft_x ft_y bmp)
          (omega arith)
          λ k _ lk.
            All-rounds Inside bmp.w 0 bmp.w (letter_pixel format color (2 * a) ft_x ft_y bmp k)
              (omega arith) (λ j _ lj. pixel-Inside k j lk lj)

  -- Each letter of the name has room in the image.
  abbrev pub HasRoom : (ℕ → FontBmp) → ℕ → ℕ → List ℕ → Type 0
  HasRoom bmps ft_x y [] = Unit
  HasRoom bmps ft_x y (c ∷ name) =
      let bmp = bmps (c - b'a') in
      if ltb c b'a' || ltb b'z' c
      then HasRoom bmps ft_x y name
      else (ft_x + bmp.w ≤ 2 * a)
        × (y - bmp.hori_bearing_y - 6 + bmp.h ≤ 2 * b)
        × HasRoom bmps (ft_x + (bmp.w / 2 * 2 + 2)) y name

  abbrev is_other : ℕ → Bool
  is_other c = ltb c b'a' || ltb b'z' c

  set_text-other :
      (bmps : ℕ → FontBmp) (ft_x y c : ℕ) (name : List ℕ)
      → is_other c ≡ true
      → set_text format color bmps (2 * a) ft_x y (c ∷ name)
        ≡ set_text format color bmps (2 * a) ft_x y name
  unfolding set_text
  set_text-other bmps ft_x y c name e = rw (e, set_text) refl

  set_text-letter :
      (bmps : ℕ → FontBmp) (ft_x y c : ℕ) (name : List ℕ)
      → is_other c ≡ false
      → let bmp = bmps (c - b'a') in
        set_text format color bmps (2 * a) ft_x y (c ∷ name)
        ≡ letter format color (2 * a) ft_x (y - bmp.hori_bearing_y - 6) bmp
          ++ set_text format color bmps (2 * a) (ft_x + (bmp.w / 2 * 2 + 2)) y name
  unfolding set_text
  set_text-letter bmps ft_x y c name e = rw (e, set_text) refl

  set_text-Inside :
      (bmps : ℕ → FontBmp) (ft_x y : ℕ) (name : List ℕ)
      → HasRoom bmps ft_x y name
      → All Inside (set_text format color bmps (2 * a) ft_x y name)
  unfolding set_text
  set_text-Inside bmps ft_x y [] room = tt
  set_text-Inside bmps ft_x y (c ∷ name) room = elim (Bool-cases (is_other c)) [
    | inl e ↦
        subst (All Inside) (sym (set_text-other bmps ft_x y c name e))
          (set_text-Inside bmps ft_x y name (rw e at room))
    | inr e ↦
        let bmp = bmps (c - b'a') in
        let ft_y = y - bmp.hori_bearing_y - 6 in
        let (hx, hy, rest) = rw e at room in
        subst (All Inside) (sym (set_text-letter bmps ft_x y c name e)) (
          All-append Inside (letter format color (2 * a) ft_x ft_y bmp)
            (set_text format color bmps (2 * a) (ft_x + (bmp.w / 2 * 2 + 2)) y name)
            (letter-Inside ft_x ft_y bmp hx hy)
            (set_text-Inside bmps (ft_x + (bmp.w / 2 * 2 + 2)) y name rest))
  ]

when-All :
    {A : Type 0} (P : A → Type 0) (b : Bool) (xs ys : List A)
    → (b ≡ true → All P xs)
    → All P ys
    → All P ((if b then xs else []) ++ ys)
when-All P true xs ys h k = All-append P xs ys (h refl) k
when-All P false xs ys h k = k

-- The rectangle of the detection has room in the image, and so has its name, if names are drawn.
abbrev pub Fits : Format → OsdConfig → ℕ → ℕ → DetectionResult → Type 0
Fits format config a b det =
    (even det.left + even det.width + 2 ≤ 2 * a)
    × (even det.top + even det.height ≤ 2 * b)
    × (config.text_enable ≡ true
        → HasRoom format config.text_yuv a b config.bmp (even det.left) (even det.top) det.name)

-- If all detections have room in an image of even width and height, then each byte that is drawn for
-- them lies in its plane of the image.
pub set_rect_text-InImage :
    (format : Format) (config : OsdConfig) (a b : ℕ) (dets : List DetectionResult)
    → All (Fits format config a b) dets
    → All (InImage format (2 * a) (2 * b)) (set_rect_text format config (2 * a) dets)
unfolding set_rect_text
set_rect_text-InImage format config a b [] fits = tt
set_rect_text-InImage format config a b (det ∷ dets) ((hx, hy, room), fits) =
    let P = InImage format (2 * a) (2 * b) in
    let x = even det.left in
    let y = even det.top in
    let rest = set_rect_text format config (2 * a) dets in
    let drawn = set_text format config.text_yuv config.bmp (2 * a) x y det.name in
    let others = set_rect_text-InImage format config a b dets fits in
    All-append P (set_rect format config.rect_yuv (2 * a) x y (even det.width) (even det.height))
      ((if config.text_enable then drawn else []) ++ rest)
      (set_rect-InImage format config.rect_yuv (2 * a) (2 * b) x y _ _ hx hy)
      (when-All P config.text_enable drawn rest
        (λ e. set_text-Inside format config.text_yuv a b config.bmp x y det.name (room e)) others)
