-- ===== src/Terrain/Pixels.antt =====
-- The pixels of a map that was loaded, and what NormalizeMap makes of them.
use lh_server.Prelude.{
  ℕ, zero, suc, ◌+◌, ◌*◌, ◌%◌, ◌<◌, ◌≡◌, refl, true, List, [], ◌∷◌, some, ltb, pos, get_or, length,
  arith,
}
use lh_server.Terrain.{
  Terrain, pixel_length, image_size, load_map, file_byte, pixel_of, normalize_pixel, normalize_map,
}

-- The numbers of the list are bytes.
abbrev pub AllBytes : List ℕ → Type 0
AllBytes [] = Unit {0}
AllBytes (b ∷ bs) = (b < 256) × AllBytes bs

get_or-byte : (bs : List ℕ) (i : ℕ) → AllBytes bs → get_or bs i 0 < 256
get_or-byte [] i h = omega arith
get_or-byte (b ∷ bs) zero h = h.0
get_or-byte (b ∷ bs) (suc i) h = get_or-byte bs i h.1

normalize_pixel_lem : (p : ℕ) → p < 65536 → normalize_pixel p ≡ (p + 32257) % 65536
unfolding normalize_pixel
normalize_pixel_lem p h = ground arith

normal_at :
    (t : Terrain) (i : ℕ)
    → t.width ≡ pos pixel_length
    → t.height ≡ pos pixel_length
    → i < image_size
    → t.pixels i < 65536
    → (normalize_map t).pixels i ≡ (t.pixels i + 32257) % 65536
unfolding normalize_map
normal_at t i w h small short =
    rw (w, h) (ground (arith, small, normalize_pixel_lem (t.pixels i) short))

loaded :
    (file : List ℕ) (memory : ℕ → ℕ) (t : Terrain) (i : ℕ)
    → i < image_size
    → 2 * i + 1 < length file
    → (load_map (some file) memory t).1.pixels i
      ≡ get_or file (2 * i) 0 + 256 * get_or file (2 * i + 1) 0
unfolding load_map pixel_of file_byte
loaded file memory t i small enough =
    let here : ltb i image_size ≡ true = ground arith in
    let low : ltb (2 * i) (length file) ≡ true = ground arith in
    let high : ltb (2 * i + 1) (length file) ≡ true = ground arith in simp (here, low, high) refl

-- A pixel whose two bytes the file has is read from them, with the low one first, whatever was in the
-- memory. `NormalizeMap` then adds 32257 to it modulo 65536: it takes 32767 and 512 away, since
-- its test for a pixel below 0 never holds.
pub normalize_map_lem :
    (file : List ℕ) (memory : ℕ → ℕ) (t : Terrain) (i : ℕ)
    → AllBytes file
    → i < image_size
    → 2 * i + 1 < length file
    → let (ok, map) = load_map (some file) memory t in
      (ok ≡ true)
      × (map.pixels i ≡ get_or file (2 * i) 0 + 256 * get_or file (2 * i + 1) 0)
      × ((normalize_map map).pixels i ≡ (map.pixels i + 32257) % 65536)
unfolding load_map
normalize_map_lem file memory t i bytes small enough =
    (refl, loaded file memory t i small enough, lowered)
  where
    lowered :
        (normalize_map (load_map (some file) memory t).1).pixels i
        ≡ ((load_map (some file) memory t).1.pixels i + 32257) % 65536
    lowered = normal_at (load_map (some file) memory t).1 i refl refl small (
        omega (
          arith,
          loaded file memory t i small enough,
          get_or-byte file (2 * i) bytes,
          get_or-byte file (2 * i + 1) bytes,
        ))

-- The map of the full size, and the same after a call of GetHeightNormal.
abbrev pub full : (ℕ → ℕ) → Terrain
full pixels = record { width = pos pixel_length; height = pos pixel_length; pixels = pixels }

abbrev pub flat : (ℕ → ℕ) → Terrain
flat pixels = record { width = pos pixel_length; height = pos 1; pixels = pixels }
