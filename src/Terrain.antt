-- ===== src/Terrain.antt =====
-- Server/CTerrain.cpp: the height map that `main` loads before it starts the threads.
pub mod Pixels
mod Examples
use lh_server.Prelude.{
  ℕ, ◌+◌, ◌*◌, ◌-◌, ◌%◌, ◌<◌, ◌≡◌, Bool, true, false, List, Option, none, some, ltb, ◌==◌, ◌||◌,
  not, if◌then◌else◌, ℤ, pos, negsuc, ◌+ℤ◌, ◌-ℤ◌, ltb_ℤ, leb_ℤ, get_or, length,
}
use lh_server.Physics.{Float, Fpu}

-- PIXEL_LENGTH, and the number of pixels.
abbrev pub pixel_length : ℕ
pixel_length = 1531

abbrev pub image_size : ℕ
image_size = 2343961

-- The fields that are used; a pixel is an unsigned short.
pub record Terrain : Type 0 where
  pub width : ℤ
  pub height : ℤ
  pub pixels : ℕ → ℕ

-- The buffer after the read: where the file has ended it keeps what was in the memory.
unfoldable pub file_byte : List ℕ → (ℕ → ℕ) → ℕ → ℕ
file_byte file memory i = if ltb i (length file) then get_or file i 0 else memory i

-- The low byte of a short is the first.
unfoldable pub pixel_of : List ℕ → (ℕ → ℕ) → ℕ → ℕ
pixel_of file memory i = file_byte file memory (2 * i) + 256 * file_byte file memory (2 * i + 1)

-- `LoadMap`; `none` is a file that cannot be opened.
unfoldable pub load_map : Option (List ℕ) → (ℕ → ℕ) → Terrain → Bool × Terrain
load_map none memory t = (false, t)
load_map (some file) memory t = (
  true,
  record {
    width = pos pixel_length;
    height = pos pixel_length;
    pixels = λ i. if ltb i image_size then pixel_of file memory i else t.pixels i;
  },
)

-- A round of `NormalizeMap`, on an unsigned short.
unfoldable pub normalize_pixel : ℕ → ℕ
normalize_pixel p =
    let lowered : ℕ = (p + 65536 - 32767) % 65536 in
    if ltb lowered 0 then (lowered + 512) % 65536 else (lowered + 65536 - 512) % 65536

abbrev pub times : ℤ → ℤ → ℤ
times (pos a) (pos b) = pos (a * b)
times (pos a) (negsuc b) = pos 0 -ℤ pos (a * (b + 1))
times (negsuc a) (pos b) = pos 0 -ℤ pos ((a + 1) * b)
times (negsuc a) (negsuc b) = pos ((a + 1) * (b + 1))

unfoldable pub normalize_map : Terrain → Terrain
normalize_map t = record t {
  pixels = λ i.
      if ltb_ℤ (pos i) (times t.width t.height) then normalize_pixel (t.pixels i) else t.pixels i;
}

-- A read of m_mapPixels; `none` outside the array.
unfoldable pub pixel_at : Terrain → ℤ → Option ℕ
pixel_at t (pos i) = if ltb i image_size then some (t.pixels i) else none
pixel_at t (negsuc i) = none

-- `OnGetHeight`, with the bits of 30000, 1.28 and 2070.
unfoldable pub on_get_height : Fpu → ℤ → ℤ → Terrain → Option Float
on_get_height f x y t = elim (pixel_at t (x +ℤ times y t.width)) [
  | none ↦ none
  | some p ↦ some (f.sub (f.div (f.sub (f.of_int (pos p)) 0x46ea6000) 0x3fa3d70a) 0x45016000)
]

abbrev pub outside : ℤ → ℤ → Terrain → Bool
outside x y t = ltb_ℤ x (pos 0) || (ltb_ℤ y (pos 0) || (leb_ℤ t.width x || leb_ℤ t.height y))

-- `GetHeightNormal`: the condition of `yAdd` assigns 1 to the height of the map, and the three heights
-- are read and not used. -1 and 0 are given by their bits.
unfoldable pub get_height_normal : ℤ → ℤ → Terrain → Option (Float × Terrain)
get_height_normal x y t =
    if outside x y t
    then some (0xbf800000, t)
    else (let index : ℤ = x +ℤ times y t.width in
        let x_add : ℤ = if ltb_ℤ x (t.width -ℤ pos 1) then pos 1 else negsuc 0 in
        let flat : Terrain = record t { height = pos 1 } in
        let y_add : ℤ = if ltb_ℤ y (pos 1) then t.width else pos 0 -ℤ t.width in
        elim (pixel_at t index) [
          | none ↦ none
          | some z1 ↦ elim (pixel_at t (index +ℤ x_add)) [
            | none ↦ none
            | some z2 ↦ elim (pixel_at t (index +ℤ y_add)) [
              | none ↦ none
              | some z3 ↦ some (0, flat)
            ]
          ]
        ])

-- The plane of one of the two triangles of a cell: the corner that the other triangle has is put on it.
-- `ge` is the processor's `>=`.
unfoldable pub blend : Fpu → (Float → Float → Bool) → Bool → Float → Float → ℤ → ℤ → ℤ → ℤ → Float
blend f ge right_to_left px py bottom_left bottom_right top_left top_right =
    let one : Float = f.of_int (pos 1) in
    let bl : Float = f.of_int bottom_left in
    let br : Float = f.of_int bottom_right in
    let tl : Float = f.of_int top_left in
    let tr : Float = f.of_int top_right in
    let new_br : Float =
      if right_to_left then (if ge py px then f.add bl (f.sub tr tl) else br) else br in
    let new_tl : Float =
      if right_to_left then (if ge py px then tl else f.add tr (f.sub bl br)) else tl in
    let new_tr : Float =
      if right_to_left
      then tr
      else (if f.lt py (f.sub one px) then f.add tl (f.sub br bl) else tr) in
    let new_bl : Float =
      if right_to_left
      then bl
      else (if f.lt py (f.sub one px) then bl else f.add tl (f.sub br tr)) in
    let top : Float = f.add (f.mul new_tl (f.sub one px)) (f.mul new_tr px) in
    let bottom : Float = f.add (f.mul new_bl (f.sub one px)) (f.mul new_br px) in
    f.add (f.mul bottom (f.sub one py)) (f.mul top py)

abbrev is_odd : ℤ → Bool
is_odd (pos n) = n % 2 == 1
is_odd (negsuc n) = n % 2 == 0

-- `GetHeight`: 0 off the map, and else the height on the cell; `none` where a corner of the cell lies
-- outside the array.
unfoldable pub get_height : Fpu → (Float → Float → Bool) → Float → Float → Terrain → Option Float
get_height f ge fx fy t =
    if f.lt fx 0 || (f.lt fy 0 || (ge fx (f.of_int t.width) || ge fy (f.of_int t.height)))
    then some 0
    else (let x : ℤ = f.to_int fx in
        let y : ℤ = f.to_int fy in
        let px : Float = f.sub fx (f.of_int x) in
        let py : Float = f.sub fy (f.of_int y) in
        let row : ℤ = times y t.width in
        let above : ℤ = times (y +ℤ pos 1) t.width in
        elim (pixel_at t (x +ℤ row)) [
          | none ↦ none
          | some bl ↦ elim (pixel_at t (x +ℤ pos 1 +ℤ row)) [
            | none ↦ none
            | some br ↦ elim (pixel_at t (x +ℤ above)) [
              | none ↦ none
              | some tl ↦ elim (pixel_at t (x +ℤ pos 1 +ℤ above)) [
                | none ↦ none
                | some tr ↦ some (blend f ge (is_odd y) px py (pos bl) (pos br) (pos tl) (pos tr))
              ]
            ]
          ]
        ])
