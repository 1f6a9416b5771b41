-- ===== src/Gst/Layout.antt =====
-- pkg/client/gst/gst.c, `gstreamer_compositor_relayout_videos`: where the compositor shows its videos.
use ion_cluster.Base.{
  ℕ, zero, suc, ◌+◌, ◌*◌, ◌/◌, ◌≤◌, ◌<◌, ◌≡◌, ◌⊎◌, inl, inr, refl, Bool-cases, some, List, [], ◌∷◌,
  get_elem?, length, leb, arith, if◌then◌else◌,
}

abbrev pub compositor_video_width : ℕ
compositor_video_width = 1920

abbrev pub compositor_video_height : ℕ
compositor_video_height = 1080

-- The properties `xpos`, `ypos`, `width` and `height` of a pad.
pub record Tile : Type 0 where
  pub x : ℕ
  pub y : ℕ
  pub width : ℕ
  pub height : ℕ

-- `rows` and `cols`; `unset` is what the variables hold that no branch sets.
unfoldable pub grid : ℕ × ℕ → ℕ → ℕ × ℕ
grid unset num_videos =
    if leb num_videos 1
    then (1, 1)
    else (if leb num_videos 4
        then (2, 2)
        else (if leb num_videos 9 then (3, 3) else (if leb num_videos 16 then (4, 4) else unset)))

-- The loop over the pads, from the position of the next.
unfoldable pub tiles : ℕ → ℕ → ℕ → ℕ → ℕ → List Tile
tiles zero x y w h = []
tiles (suc n) x y w h =
    let below = tiles n 0 (y + h) w h in
    let beside = tiles n (x + w) y w h in
    record { x = x; y = y; width = w; height = h }
    ∷ (if leb compositor_video_width (x + w) then below else beside)

-- `gstreamer_compositor_relayout_videos` on a compositor with so many pads. A grid of no columns or no
-- rows divides by zero, which is undefined.
unfoldable pub relayout_videos : ℕ × ℕ → ℕ → List Tile
relayout_videos unset num_videos =
    let (rows, cols) = grid unset num_videos in
    tiles num_videos 0 0 (compositor_video_width / cols) (compositor_video_height / rows)

-- Two tiles do not overlap.
abbrev pub Apart : Tile → Tile → Type 0
Apart a b =
    (a.x + a.width ≤ b.x)
    ⊎ ((b.x + b.width ≤ a.x) ⊎ ((a.y + a.height ≤ b.y) ⊎ (b.y + b.height ≤ a.y)))

-- The tile stands in the row at the position or behind it, or in a row below.
Behind : (x y w h : ℕ) → Tile → Type 0
Behind x y w h t = (t.width ≡ w) × (t.height ≡ h) × (((t.y ≡ y) × (x ≤ t.x)) ⊎ (y + h ≤ t.y))

tiles-Behind :
    (n x y w h : ℕ) (i : ℕ) (t : Tile) → get_elem? (tiles n x y w h) i ≡ some t → Behind x y w h t
unfolding tiles Behind
tiles-Behind zero x y w h i t e = absurd (cc)
tiles-Behind (suc n) x y w h zero t e = ground arith
tiles-Behind (suc n) x y w h (suc i) t e =
    ground (arith, tiles-Behind n 0 (y + h) w h i t, tiles-Behind n (x + w) y w h i t)

tiles-Apart :
    (n x y w h : ℕ) (i j : ℕ) (s t : Tile)
    → i < j
    → get_elem? (tiles n x y w h) i ≡ some s
    → get_elem? (tiles n x y w h) j ≡ some t
    → Apart s t
unfolding tiles Behind
tiles-Apart zero x y w h i j s t lt e f = absurd (cc)
tiles-Apart (suc n) x y w h i zero s t lt e f = absurd (omega arith)
tiles-Apart (suc n) x y w h zero (suc j) s t lt e f =
    ground (arith, tiles-Behind n 0 (y + h) w h j t, tiles-Behind n (x + w) y w h j t)
tiles-Apart (suc n) x y w h (suc i) (suc j) s t lt e f =
    ground (arith, tiles-Apart n 0 (y + h) w h i j s t, tiles-Apart n (x + w) y w h i j s t)

-- A position from which there is room for `k` tiles beside the next one, and for `m` rows of `suc c`
-- below it.
record Room (n k m c x y w h : ℕ) : Type 0 where
  wide : 0 < w
  whole : suc c * w ≡ compositor_video_width
  beside : x + suc k * w ≡ compositor_video_width
  below : y + suc m * h ≤ compositor_video_height
  enough : n ≤ suc k + m * suc c

tiles-fit :
    (n k m c x y w h : ℕ) (i : ℕ) (t : Tile)
    → Room n k m c x y w h
    → get_elem? (tiles n x y w h) i ≡ some t
    → (t.x + t.width ≤ compositor_video_width) × (t.y + t.height ≤ compositor_video_height)
unfolding tiles
tiles-fit zero k m c x y w h i t room e = absurd (cc)
tiles-fit (suc n) k m c x y w h zero t room e = ground (arith, room.beside, room.below)
tiles-fit (suc zero) k m c x y w h (suc i) t room e = absurd (ground arith)
tiles-fit (suc (suc n)) (suc k) m c x y w h (suc i) t room e =
    tiles-fit (suc n) k m c (x + w) y w h i t
      (record {
        wide = room.wide;
        whole = room.whole;
        beside = omega (arith, room.beside);
        below = room.below;
        enough = omega (arith, room.enough);
      })
      (ground (arith, room.wide, room.beside))
tiles-fit (suc (suc n)) zero zero c x y w h (suc i) t room e = absurd (omega (arith, room.enough))
tiles-fit (suc (suc n)) zero (suc m) c x y w h (suc i) t room e =
    tiles-fit (suc n) c m c 0 (y + h) w h i t
      (record {
        wide = room.wide;
        whole = room.whole;
        beside = omega (arith, room.whole);
        below = omega (arith, room.below);
        enough = omega (arith, room.enough);
      })
      (ground (arith, room.wide, room.beside))

-- A square grid has room for as many tiles as it has cells.
square-fit :
    (c n w h i : ℕ) (t : Tile)
    → 0 < w
    → suc c * w ≡ compositor_video_width
    → suc c * h ≤ compositor_video_height
    → n ≤ suc c + c * suc c
    → get_elem? (tiles n 0 0 w h) i ≡ some t
    → (t.x + t.width ≤ compositor_video_width) × (t.y + t.height ≤ compositor_video_height)
square-fit c n w h i t wide whole high enough e =
    tiles-fit n c c c 0 0 w h i t
      (record {
        wide = wide;
        whole = whole;
        beside = omega (arith, whole);
        below = omega (arith, high);
        enough = enough;
      })
      e

length-tiles : (n x y w h : ℕ) → length (tiles n x y w h) ≡ n
unfolding tiles
length-tiles zero x y w h = refl
length-tiles (suc n) x y w h =
    ground (arith, length-tiles n 0 (y + h) w h, length-tiles n (x + w) y w h)

relayout_videos-inside :
    (unset : ℕ × ℕ) (num_videos i : ℕ) (t : Tile)
    → num_videos ≤ 16
    → get_elem? (relayout_videos unset num_videos) i ≡ some t
    → (t.x + t.width ≤ compositor_video_width) × (t.y + t.height ≤ compositor_video_height)
unfolding relayout_videos grid
relayout_videos-inside unset n i t few e = elim (Bool-cases (leb n 1)) [
  | inl one ↦
      square-fit 0 n 1920 1080 i t (omega arith) (omega arith) (omega arith) (ground arith)
        (ground arith)
  | inr more ↦ elim (Bool-cases (leb n 4)) [
    | inl four ↦
        square-fit 1 n 960 540 i t (omega arith) (omega arith) (omega arith) (ground arith)
          (ground arith)
    | inr more' ↦ elim (Bool-cases (leb n 9)) [
      | inl nine ↦
          square-fit 2 n 640 360 i t (omega arith) (omega arith) (omega arith) (ground arith)
            (ground arith)
      | inr many ↦
          square-fit 3 n 480 270 i t (omega arith) (omega arith) (omega arith) (ground arith)
            (ground arith)
    ]
  ]
]

-- For up to 16 videos there are as many tiles as videos, each stands inside the 1920 by 1080 picture,
-- and no two of them overlap.
pub relayout_videos-fit :
    (unset : ℕ × ℕ) (num_videos i j : ℕ) (s t : Tile)
    → num_videos ≤ 16
    → get_elem? (relayout_videos unset num_videos) i ≡ some s
    → get_elem? (relayout_videos unset num_videos) j ≡ some t
    → (length (relayout_videos unset num_videos) ≡ num_videos)
      × (s.x + s.width ≤ compositor_video_width)
      × (s.y + s.height ≤ compositor_video_height)
      × ((i ≡ j) ⊎ Apart s t)
unfolding relayout_videos
relayout_videos-fit unset n i j s t few e f =
    let inside = relayout_videos-inside unset n i s few e in
    let w : ℕ = 1920 / (grid unset n).1 in
    let h : ℕ = 1080 / (grid unset n).0 in
    (
      length-tiles n 0 0 w h,
      inside.0,
      inside.1,
      ground (arith, tiles-Apart n 0 0 w h i j s t, tiles-Apart n 0 0 w h j i t s),
    )
