-- ===== src/Osd.antt =====
-- plugins/official/osd/osd.cpp: what is drawn into an image, the rectangles of the detections and
-- their names. A drawing is the list of its stores in their order. The numbers of a detection are
-- those after the conversion to int and must not be negative; a store that would lie in front of the
-- image is not modelled.
pub mod Rect
pub mod Letters
use aistream.Base.{
  ℕ, ◌+◌, ◌-◌, ◌*◌, ◌/◌, ltb, ◌==◌, if◌then◌else◌, Bool, true, false, ◌||◌, List, [], ◌∷◌, ◌++◌,
  rounds,
}

-- The planes of an image: NV12 has y and uv, YUV420p has y, u and v, one after the other.
pub data Plane : Type 0 where
  y_plane uv_plane u_plane v_plane : Plane

-- A store of one byte, at an offset in a plane.
pub record Store : Type 0 where
  pub plane : Plane
  pub offset : ℕ
  pub value : ℕ

-- A colour of the configuration, rect_yuv or text_yuv.
pub record Yuv : Type 0 where
  pub y : ℕ
  pub u : ℕ
  pub v : ℕ

abbrev pub store : Plane → ℕ → ℕ → Store
store plane offset value = record { plane = plane; offset = offset; value = value }

abbrev pub fill_at : Plane → ℕ → ℕ → ℕ → List Store
fill_at plane start value j = store plane (start + j) value ∷ []

-- memset
abbrev pub fill : Plane → ℕ → ℕ → ℕ → List Store
fill plane start size value = rounds size 0 (fill_at plane start value)

-- The stores at the two ends of a line.
abbrev pub y_ends : Yuv → ℕ → ℕ → List Store
y_ends color start_x end_x =
    store y_plane start_x color.y
    ∷ store y_plane (start_x + 1) color.y
    ∷ store y_plane end_x color.y
    ∷ store y_plane (end_x + 1) color.y
    ∷ []

abbrev pub nv12_ends : Yuv → ℕ → ℕ → List Store
nv12_ends color start_x end_x =
    store uv_plane start_x color.u
    ∷ store uv_plane (start_x + 1) color.v
    ∷ store uv_plane end_x color.u
    ∷ store uv_plane (end_x + 1) color.v
    ∷ []

abbrev pub yuv420p_ends : Yuv → ℕ → ℕ → List Store
yuv420p_ends color start_x end_x =
    store u_plane start_x color.u
    ∷ store u_plane end_x color.u
    ∷ store v_plane start_x color.v
    ∷ store v_plane end_x color.v
    ∷ []

-- The rectangle's line i in the plane of y, which is alike in both formats.
unfoldable pub y_line : Yuv → ℕ → ℕ → ℕ → ℕ → ℕ → ℕ → List Store
y_line color img_w x y w h i =
    let start_x = img_w * i + x in
    let end_x = start_x + w in
    (if i == y || i == y + 1 || i + 1 == y + h || i + 2 == y + h
      then fill y_plane start_x w color.y
      else [])
    ++ y_ends color start_x end_x

-- The round j = 2 * k of the loop in Nv12pSetRect, and the round j of the one in Yuv420pSetRect.
abbrev pub nv12_at : Yuv → ℕ → ℕ → List Store
nv12_at color start_x k =
    store uv_plane (start_x + 2 * k) color.u ∷ store uv_plane (start_x + 2 * k + 1) color.v ∷ []

abbrev pub yuv420p_at : Yuv → ℕ → ℕ → List Store
yuv420p_at color start_x j =
    store u_plane (start_x + j) color.u ∷ store v_plane (start_x + j) color.v ∷ []

unfoldable pub nv12_line : Yuv → ℕ → ℕ → ℕ → ℕ → ℕ → ℕ → List Store
nv12_line color img_w x w yy hh i =
    let start_x = img_w * i + x in
    let end_x = start_x + w in
    (if i == yy || i + 1 == hh then rounds ((w + 1) / 2) 0 (nv12_at color start_x) else [])
    ++ nv12_ends color start_x end_x

-- Nv12pSetRect.
unfoldable pub nv12p_set_rect : Yuv → ℕ → ℕ → ℕ → ℕ → ℕ → List Store
unfolding y_line nv12_line
nv12p_set_rect color img_w x y w h =
    let yy = y / 2 in
    let hh = (y + h) / 2 in
    rounds h y (y_line color img_w x y w h) ++ rounds (hh - yy) yy (nv12_line color img_w x w yy hh)

unfoldable pub yuv420p_line : Yuv → ℕ → ℕ → ℕ → ℕ → ℕ → ℕ → List Store
yuv420p_line color img_w x w yy hh i =
    let start_x = (img_w * i + x) / 2 in
    let end_x = start_x + w / 2 in
    (if i == yy || i + 1 == hh then rounds (w / 2) 0 (yuv420p_at color start_x) else [])
    ++ yuv420p_ends color start_x end_x

-- Yuv420pSetRect.
unfoldable pub yuv420p_set_rect : Yuv → ℕ → ℕ → ℕ → ℕ → ℕ → List Store
unfolding y_line yuv420p_line
yuv420p_set_rect color img_w x y w h =
    let yy = y / 2 in
    let hh = (y + h) / 2 in
    rounds h y (y_line color img_w x y w h)
    ++ rounds (hh - yy) yy (yuv420p_line color img_w x w yy hh)

-- The bitmap of a letter.
pub record FontBmp : Type 0 where
  pub buf : ℕ → ℕ
  pub w : ℕ
  pub h : ℕ
  pub hori_bearing_y : ℕ

-- The store of one pixel of a letter, in each format. The two bytes of u and v are one store of 16
-- bits in the source, which the little end puts in this order.
pub data Format : Type 0 where
  nv12 yuv420p : Format

unfoldable pub uv_pixel : Format → Yuv → ℕ → List Store
uv_pixel nv12 color offset =
    store uv_plane (2 * offset) color.u ∷ store uv_plane (2 * offset + 1) color.v ∷ []
uv_pixel yuv420p color offset = store u_plane offset color.u ∷ store v_plane offset color.v ∷ []

-- The column _w of the line _h of a letter.
abbrev pub letter_pixel : Format → Yuv → ℕ → ℕ → ℕ → FontBmp → ℕ → ℕ → List Store
letter_pixel format color img_w ft_x ft_y bmp _h _w =
    let start_x_y = img_w * (ft_y + _h) + ft_x in
    let start_x_uv = img_w / 2 * (ft_y / 2 + _h / 2) + ft_x / 2 in
    if bmp.buf (_h * bmp.w + _w) == 0
    then []
    else store y_plane (start_x_y + _w) color.y ∷ uv_pixel format color (start_x_uv + _w / 2)

abbrev pub letter_line : Format → Yuv → ℕ → ℕ → ℕ → FontBmp → ℕ → List Store
letter_line format color img_w ft_x ft_y bmp _h =
    rounds bmp.w 0 (letter_pixel format color img_w ft_x ft_y bmp _h)

unfoldable pub letter : Format → Yuv → ℕ → ℕ → ℕ → FontBmp → List Store
unfolding uv_pixel
letter format color img_w ft_x ft_y bmp =
    rounds bmp.h 0 (letter_line format color img_w ft_x ft_y bmp)

-- Nv12SetText and Yuv420pSetText; `bmps` holds the letters from a to z.
unfoldable pub set_text : Format → Yuv → (ℕ → FontBmp) → ℕ → ℕ → ℕ → List ℕ → List Store
unfolding letter
set_text format color bmps img_w ft_x y [] = []
set_text format color bmps img_w ft_x y (c ∷ name) = elim (ltb c b'a' || ltb b'z' c) [
  | true ↦ set_text format color bmps img_w ft_x y name
  | false ↦
      let bmp = bmps (c - b'a') in
      let ft_y = y - bmp.hori_bearing_y - 6 in
      letter format color img_w ft_x ft_y bmp
      ++ set_text format color bmps img_w (ft_x + (bmp.w / 2 * 2 + 2)) y name
]

pub record DetectionResult : Type 0 where
  pub left : ℕ
  pub top : ℕ
  pub width : ℕ
  pub height : ℕ
  pub name : List ℕ

pub record OsdConfig : Type 0 where
  pub rect_yuv : Yuv
  pub text_yuv : Yuv
  pub text_enable : Bool
  pub bmp : ℕ → FontBmp

abbrev pub even : ℕ → ℕ
even n = n / 2 * 2

unfoldable pub set_rect : Format → Yuv → ℕ → ℕ → ℕ → ℕ → ℕ → List Store
unfolding nv12p_set_rect yuv420p_set_rect
set_rect nv12 = nv12p_set_rect
set_rect yuv420p = yuv420p_set_rect

-- Nv12SetRectText and Yuv420pSetRectText. An empty name is tested there; its text has no stores.
unfoldable pub set_rect_text : Format → OsdConfig → ℕ → List DetectionResult → List Store
unfolding set_rect set_text
set_rect_text format config img_w [] = []
set_rect_text format config img_w (det ∷ dets) =
    let x = even det.left in
    let y = even det.top in
    let rest = set_rect_text format config img_w dets in
    set_rect format config.rect_yuv img_w x y (even det.width) (even det.height)
    ++ ((if config.text_enable
          then set_text format config.text_yuv config.bmp img_w x y det.name
          else [])
        ++ rest)
