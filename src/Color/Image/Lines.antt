-- ===== src/Color/Image/Lines.antt =====
-- plugins/common/common.cpp: what the loop over one line of blocks writes, for an image of even
-- width.
use aistream.Base.{ℕ, zero, suc, ◌+◌, ◌*◌, ◌/◌, ◌<◌, ◌≤◌, ◌≡◌, refl, some, arith}
use aistream.Color.{Rgb, pixel}
use aistream.Color.Clip.{reference, pixel_lem}
use aistream.Color.Image.{Format, nv12, yuv420p, Cursor, fetch, block, row, next_row}
use aistream.Color.Image.Cells.{rgb_at}
use aistream.Color.Image.Block.{IsDone, put_block, put_block-after, put_block_lem}

abbrev pub Bytes : (ℕ → ℕ) → Type 0
Bytes a = (i : ℕ) → a i < 256

-- Where the cursor stands in front of the block number i of the line of blocks number j.
abbrev pub At : ℕ → ℕ → ℕ → Cursor → Type 0
At a j i c =
    (c.py1 ≡ 2 * j * (2 * a) + 2 * i)
    × (c.py2 ≡ (2 * j + 1) * (2 * a) + 2 * i)
    × (c.d1 ≡ 3 * c.py1)
    × (c.d2 ≡ 3 * c.py2)

abbrev pub Fetched : Format → ℕ → Cursor → Type 0
Fetched nv12 n c = c.src1 ≡ 2 * n
Fetched yuv420p n c = (c.src1 ≡ n) × (c.src2 ≡ n)

abbrev pub Keeps : (ℕ → ℕ) → ℕ → (ℕ → ℕ) → Type 0
Keeps before end dst = (q : ℕ) → 3 * end ≤ q → dst q ≡ before q

Fetched-ext :
    (format : Format) (n m : ℕ) (c c' : Cursor)
    → n ≡ m
    → c'.src1 ≡ c.src1
    → c'.src2 ≡ c.src2
    → Fetched format n c
    → Fetched format m c'
Fetched-ext nv12 n m c c' e e1 e2 h = omega arith
Fetched-ext yuv420p n m c c' e e1 e2 h = omega arith

module _ (src0 src1 src2 : ℕ → ℕ) where
  -- u and v of the block number n.
  abbrev pub u_at : Format → ℕ → ℕ
  u_at nv12 n = src1 (2 * n)
  u_at yuv420p n = src1 n

  abbrev pub v_at : Format → ℕ → ℕ
  v_at nv12 n = src1 (2 * n + 1)
  v_at yuv420p n = src2 n

  -- The colour of the pixel in line y and column x, with a blocks in a line of blocks.
  abbrev pub colour : Format → ℕ → ℕ → ℕ → Rgb
  colour format a y x =
      let n = y / 2 * a + x / 2 in
      reference (src0 (y * (2 * a) + x)) (u_at format n) (v_at format n)

  abbrev pub IsRight : Format → ℕ → ℕ → ℕ → (ℕ → ℕ) → Type 0
  IsRight format a j i dst =
      (y x : ℕ) → x < 2 * a → IsDone j i y x → rgb_at dst (y * (2 * a) + x) ≡ colour format a y x

  fetch_lem :
      (format : Format) (n : ℕ) (c : Cursor)
      → Fetched format n c
      → (s1 : ℕ) × (s2 : ℕ) × (fetch src0 src1 src2 format c
          ≡ (u_at format n, (v_at format n, record c { src1 = s1; src2 = s2 })))
        × Fetched format (n + 1) (record c { src1 = s1; src2 = s2 })
  unfolding fetch
  fetch_lem nv12 n c h = (c.src1 + 2, c.src2, simp h, omega arith)
  fetch_lem yuv420p n c h = (c.src1 + 1, c.src2 + 1, simp (h.0, h.1), omega arith)

  -- The state in front of the block number i of the line of blocks number j.
  abbrev pub Inv : Format → ℕ → (ℕ → ℕ) → ℕ → ℕ → Cursor → Type 0
  Inv format a before j i c =
      At a j i c
      × Fetched format (j * a + i) c
      × IsRight format a j i c.dst
      × Keeps before ((2 * j + 2) * (2 * a)) c.dst

  -- The state at the start of a line of blocks.
  abbrev pub Start : Format → ℕ → (ℕ → ℕ) → ℕ → Cursor → Type 0
  Start format a before j c =
      At a j 0 c
      × Fetched format (j * a) c
      × IsRight format a j 0 c.dst
      × Keeps before (2 * j * (2 * a)) c.dst

  module _ (b0 : Bytes src0) (b1 : Bytes src1) (b2 : Bytes src2) where
    u_at-lt : (format : Format) (n : ℕ) → u_at format n < 256
    u_at-lt nv12 n = b1 (2 * n)
    u_at-lt yuv420p n = b1 n

    v_at-lt : (format : Format) (n : ℕ) → v_at format n < 256
    v_at-lt nv12 n = b1 (2 * n + 1)
    v_at-lt yuv420p n = b2 n

    pixel_at :
        (format : Format) (a j i y x p : ℕ)
        → y / 2 ≡ j
        → x / 2 ≡ i
        → p ≡ y * (2 * a) + x
        → pixel (src0 p) (u_at format (j * a + i)) (v_at format (j * a + i))
          ≡ some (colour format a y x)
    pixel_at format a j i y x p ey ex ep =
        rw (ep, ey, ex)
          (pixel_lem _ _ _ (b0 (y * (2 * a) + x)) (u_at-lt format (j * a + i))
            (v_at-lt format (j * a + i)))

    -- The pixels of a block are the colours at its places.
    block_lem :
        (format : Format) (a j i : ℕ) (c : Cursor)
        → At a j i c
        → (c' : Cursor) × (block src0 src1 src2
              (u_at format (j * a + i))
              (v_at format (j * a + i))
              c
            ≡ some c')
          × At a j (i + 1) c'
          × (c'.src1 ≡ c.src1)
          × (c'.src2 ≡ c.src2)
          × (c'.dst ≡ put_block (colour format a) (2 * a) j i c.dst)
    unfolding block put_block
    block_lem format a j i c (e1, e2, e3, e4) =
        let p1 : c.d1 ≡ 3 * (2 * j * (2 * a) + 2 * i) = omega arith in
        let p2 : c.d2 ≡ 3 * ((2 * j + 1) * (2 * a) + 2 * i) = omega arith in
        let p3 : c.d1 + 3 ≡ 3 * (2 * j * (2 * a) + (2 * i + 1)) = omega arith in
        let p4 : c.d2 + 3 ≡ 3 * ((2 * j + 1) * (2 * a) + (2 * i + 1)) = omega arith in
        (
          record c {
            py1 = c.py1 + 2;
            py2 = c.py2 + 2;
            d1 = c.d1 + 6;
            d2 = c.d2 + 6;
            dst = put_block (colour format a) (2 * a) j i c.dst;
          },
          rw
              (
                pixel_at format a j i (2 * j) (2 * i) c.py1 (omega arith) (omega arith) e1,
                pixel_at format a j i (2 * j + 1) (2 * i) c.py2 (omega arith) (omega arith) e2,
                pixel_at format a j i (2 * j) (2 * i + 1) (c.py1 + 1) (omega arith) (omega arith)
                    (omega arith),
                pixel_at format a j i (2 * j + 1) (2 * i + 1) (c.py2 + 1) (omega arith)
                    (omega arith) (omega arith),
                p4,
                p3,
                p2,
                p1,
              )
              refl,
          (omega arith, omega arith, omega arith, omega arith),
          refl,
          refl,
          refl,
        )

    step_Inv :
        (format : Format) (a : ℕ) (before : ℕ → ℕ) (j i : ℕ) (c c' : Cursor)
        → i < a
        → c'.dst ≡ put_block (colour format a) (2 * a) j i c.dst
        → IsRight format a j i c.dst
        → Keeps before ((2 * j + 2) * (2 * a)) c.dst
        → IsRight format a j (i + 1) c'.dst × Keeps before ((2 * j + 2) * (2 * a)) c'.dst
    step_Inv format a before j i c c' h e right keeps = (
      λ y x hx done.
          rw e (put_block_lem (colour format a) (2 * a) j i c.dst (omega arith) right y x hx done),
      λ q hq.
          rw (e, put_block-after (colour format a) (2 * a) j i q c.dst (omega arith) hq)
            (keeps q hq),
    )

    pub row_lem :
        (n : ℕ) (format : Format) (a : ℕ) (before : ℕ → ℕ) (j i k : ℕ) (c : Cursor)
        → i + n ≡ k
        → k ≤ a
        → Inv format a before j i c
        → (c' : Cursor) × (row src0 src1 src2 n format c ≡ some c') × Inv format a before j k c'
    unfolding row
    row_lem zero format a before j i k c e l inv =
        let e' : i ≡ k = omega arith in (c, refl, rw (← e') inv)
    row_lem (suc n) format a before j i k c e l (at, fetched, right, keeps) =
        let (s1, s2, f, fetched') = fetch_lem format (j * a + i) c fetched in
        let c1 = record c { src1 = s1; src2 = s2 } in
        let (c2, b, at', e1, e2, ed) = block_lem format a j i c1 at in
        let (right', keeps') = step_Inv format a before j i c c2 (omega arith) ed right keeps in
        let (c3, r, inv) =
          row_lem n format a before j (i + 1) k c2 (omega arith) l
            (at', Fetched-ext format _ _ c1 c2 (omega arith) e1 e2 fetched', right', keeps') in
        (c3, rw (f, b) r, inv)

    pub Start→Inv :
        (format : Format) (a : ℕ) (before : ℕ → ℕ) (j : ℕ) (c : Cursor)
        → Start format a before j c
        → Inv format a before j 0 c
    Start→Inv format a before j c (at, fetched, right, keeps) = (
      at,
      Fetched-ext format _ _ c c (omega arith) refl refl fetched,
      right,
      λ q hq. keeps q (omega arith),
    )

    -- At the end of a line all its pixels are done.
    pub next_row-Start :
        (format : Format) (a : ℕ) (before : ℕ → ℕ) (j : ℕ) (c : Cursor)
        → Inv format a before j a c
        → Start format a before (j + 1) (next_row (2 * a) c)
    next_row-Start format a before j c ((e1, e2, e3, e4), fetched, right, keeps) = (
      (omega arith, omega arith, omega arith, omega arith),
      Fetched-ext format _ _ c (next_row (2 * a) c) (omega arith) refl refl fetched,
      λ y x hx done. right y x hx (ground arith),
      λ q hq. keeps q (omega arith),
    )
