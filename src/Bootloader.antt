-- ===== src/Bootloader.antt =====
-- bootloader.c: the message block that the recovery and the bootloader share, and the firmware
-- image that is left for the bootloader on the cache partition.
pub mod Message
pub mod Reach
mod Tests
use recovery_sdx.Base.{
  ℕ, ◌+◌, ◌*◌, ◌/◌, ◌%◌, ◌^◌, Bool, true, false, Option, none, some, List, [], ◌∷◌, ◌++◌, Bytes,
  ◌==◌, ◌≡◌, if◌then◌else◌, ◌>>=◌, ◌>>◌, guard, length, take, drop, replicate, codes,
}
use recovery_sdx.Base.Int.{ℤ, pos, minus_one, is_nonzero}
use recovery_sdx.Os.{Os}
use recovery_sdx.Roots.{ensure_root_path_unmounted, get_root_mtd_partition}

pub record BootloaderMessage : Type 0 where
  pub command : Bytes
  pub status : Bytes
  pub recovery : Bytes

-- The sizes of the fields of the structure.
pub record IsMessage (m : BootloaderMessage) : Type 0 where
  pub length-command : length m.command ≡ 32
  pub length-status : length m.status ≡ 32
  pub length-recovery : length m.recovery ≡ 1024

abbrev pub message_size : ℕ
message_size = 1088

abbrev pub misc_pages : ℕ
misc_pages = 3

unfoldable pub encode : BootloaderMessage → Bytes
encode m = m.command ++ (m.status ++ m.recovery)

unfoldable pub decode : Bytes → BootloaderMessage
decode b = record {
  command = take 32 b;
  status = take 32 (drop 32 b);
  recovery = take 1024 (drop 64 b);
}

-- The command page is replaced in what was read.
unfoldable pub patch : ℕ → BootloaderMessage → Bytes → Bytes
patch write_size m bytes =
    take write_size bytes ++ (encode m ++ drop (write_size + message_size) bytes)

module _ {W : Type 0} (os : Os W) where
  -- `get_bootloader_message` behind the search for the partition.
  unfoldable pub read_message : ℕ → W → Option BootloaderMessage
  read_message part w = do
    write_size ← os.mtd_write_size part w
    guard (os.mtd_read_partition part w)
    bytes ← os.mtd_read_data part (write_size * misc_pages) w
    some (decode (drop write_size bytes))

  write_pages : ℕ → Bytes → W → ℤ × W
  write_pages part bytes w =
      let (opened, w₁) = os.mtd_write_partition part w in
      let (written, w₂) = os.mtd_write_data part bytes w₁ in
      let (closed, w₃) = os.mtd_write_close part w₂ in
      if opened
      then if written then (if is_nonzero closed then minus_one else pos 0, w₃) else (minus_one, w₃)
      else (minus_one, w₁)

  -- The pages with the message in place, if the partition can be read.
  unfoldable pub patched_pages : ℕ → BootloaderMessage → W → Option Bytes
  unfolding patch
  patched_pages part m w = do
    write_size ← os.mtd_write_size part w
    guard (os.mtd_read_partition part w)
    bytes ← os.mtd_read_data part (write_size * misc_pages) w
    some (patch write_size m bytes)

  -- `set_bootloader_message` behind the search for the partition.
  unfoldable pub write_message : ℕ → BootloaderMessage → W → ℤ × W
  unfolding write_pages
  write_message part m w = elim (patched_pages part m w) [
    | none ↦ (minus_one, w)
    | some bytes ↦ write_pages part bytes w
  ]

  unfoldable pub get_bootloader_message : W → Option BootloaderMessage × W
  get_bootloader_message w =
      let (part, w') = get_root_mtd_partition os (codes "MISC:") w in
      elim part [ none ↦ (none, w') | some p ↦ (read_message p w', w') ]

  unfoldable pub set_bootloader_message : BootloaderMessage → W → ℤ × W
  set_bootloader_message m w =
      let (part, w') = get_root_mtd_partition os (codes "MISC:") w in
      elim part [ none ↦ (minus_one, w') | some p ↦ write_message p m w' ]

-- A 32-bit word in the order of the device.
abbrev word : ℕ → Bytes
word n = n % 256 ∷ n / 256 % 256 ∷ n / 2 ^ 16 % 256 ∷ n / 2 ^ 24 % 256 ∷ []

-- `struct update_header`, less the magic number and the version.
pub record UpdateHeader : Type 0 where
  pub image_offset : ℕ
  pub image_length : ℕ
  pub bitmap_width : ℕ
  pub bitmap_height : ℕ
  pub bitmap_bpp : ℕ
  pub busy_offset : ℕ
  pub busy_length : ℕ
  pub fail_offset : ℕ
  pub fail_length : ℕ

abbrev header_size : ℕ
header_size = 60

unfoldable pub encode_header : UpdateHeader → Bytes
encode_header h =
    codes "MSM-RADIO-UPDATE"
    ++ (word (2 ^ 16)
        ++ (word header_size
            ++ (word h.image_offset
                ++ (word h.image_length
                    ++ (word h.bitmap_width
                        ++ (word h.bitmap_height
                            ++ (word h.bitmap_bpp
                                ++ (word h.busy_offset
                                    ++ (word h.busy_length
                                        ++ (word h.fail_offset ++ word h.fail_length))))))))))

-- The bitmaps that `write_update_for_bootloader` is given; a null bitmap is `none`.
pub record Bitmaps : Type 0 where
  pub width : ℕ
  pub height : ℕ
  pub bpp : ℕ
  pub busy : Option Bytes
  pub fail : Option Bytes

abbrev bitmap_length : Bitmaps → ℕ
bitmap_length b = (b.bpp + 7) / 8 * b.width * b.height

length_of : Bitmaps → Option Bytes → ℕ
length_of b none = 0
length_of b (some d) = bitmap_length b

module _ {W : Type 0} (os : Os W) where
  write_bytes : ℕ → Bitmaps → Option Bytes → W → Bool × W
  write_bytes part b none w = os.mtd_write_null part (bitmap_length b) w
  write_bytes part b (some d) w = os.mtd_write_data part d w

  -- A block-aligned section: its offset, unless the device fails.
  write_section : ℕ → (W → Bool × W) → W → Option ℕ × W
  write_section part write w =
      let (offset, w₁) = os.mtd_align_block part w in
      let (written, w₂) = write w₁ in
      elim offset [ none ↦ (none, w₁) | some o ↦ (if written then some o else none, w₂) ]

  abandon : ℕ → W → ℤ × W
  abandon part w = (minus_one, (os.mtd_write_close part w).1)

  -- The last step: the header is written again, now with the magic number.
  write_header : ℕ → UpdateHeader → W → ℤ × W
  unfolding encode_header abandon
  write_header part h w =
      let (opened, w₁) = os.mtd_write_partition part w in
      let (written, w₂) = os.mtd_write_data part (encode_header h) w₁ in
      let (aligned, w₃) = os.mtd_align_block part w₂ in
      let (closed, w₄) = os.mtd_write_close part w₃ in
      let same : Bool = elim aligned [ none ↦ false | some o ↦ o == h.image_offset ] in
      if opened
      then if written
        then if same then (if is_nonzero closed then minus_one else pos 0, w₄) else (minus_one, w₄)
        else abandon part w₂
      else (minus_one, w₁)

  -- The three sections behind the zero header, and the header over it.
  write_sections : ℕ → Bytes → Bitmaps → W → ℤ × W
  unfolding write_section write_bytes write_header length_of
  write_sections part update b w =
      let (image, w₁) = write_section part (os.mtd_write_data part update) w in
      let (busy, w₂) = write_section part (write_bytes part b b.busy) w₁ in
      let (fail, w₃) = write_section part (write_bytes part b b.fail) w₂ in
      let (closed, w₄) = os.mtd_write_close part w₃ in
      elim image [
        | none ↦ abandon part w₁
        | some image_at ↦ elim busy [
          | none ↦ abandon part w₂
          | some busy_at ↦ elim fail [
            | none ↦ abandon part w₃
            | some fail_at ↦
                let header : UpdateHeader = record {
                  image_offset = image_at;
                  image_length = length update;
                  bitmap_width = b.width;
                  bitmap_height = b.height;
                  bitmap_bpp = b.bpp;
                  busy_offset = busy_at;
                  busy_length = length_of b b.busy;
                  fail_offset = fail_at;
                  fail_length = length_of b b.fail;
                } in
                if is_nonzero closed then (minus_one, w₄) else write_header part header w₄
          ]
        ]
      ]

  -- `write_update_for_bootloader` behind the search for the partition.
  write_update : ℕ → Bytes → Bitmaps → W → ℤ × W
  unfolding write_sections
  write_update part update b w =
      let (opened, w₁) = os.mtd_write_partition part w in
      let (written, w₂) = os.mtd_write_data part (replicate header_size 0) w₁ in
      if opened
      then if written then write_sections part update b w₂ else abandon part w₂
      else (minus_one, w₁)

  unfoldable pub write_update_for_bootloader : Bytes → Bitmaps → W → ℤ × W
  unfolding write_update
  write_update_for_bootloader update b w =
      let (busy, w₁) = ensure_root_path_unmounted os (codes "CACHE:") w in
      let (part, w₂) = get_root_mtd_partition os (codes "CACHE:") w₁ in
      if is_nonzero busy
      then (minus_one, w₁)
      else elim part [ none ↦ (minus_one, w₂) | some p ↦ write_update p update b w₂ ]
