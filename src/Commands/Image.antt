-- ===== src/Commands/Image.antt =====
-- The firmware image that a script leaves.
use recovery_sdx.Base.{
  ℕ, ◌+◌, ◌≡◌, refl, sym, ap, ◌∙◌, subst, true, false, ◌&&◌, Option, none, some, List, [], ◌∷◌,
  ◌++◌, Bytes, codes, bytes_eq, bytes_eq_iff, length, ltb, arith, ◌==◌, ==_iff, inl, inr,
  Bool-cases, eq_of_some, >>=-eq-some, ◌||◌, &&-eq-true,
}
use mathlib.Core.List.{append-nil, append_assoc}
use recovery_sdx.Base.Int.{pos}
use recovery_sdx.Os.{Os}
use recovery_sdx.Roots.{is_package_root_path}
use recovery_sdx.Firmware.{remember_firmware_update, is_some}
use recovery_sdx.Commands.{concat_all}
use recovery_sdx.Commands.Device.{
  System, World, gather, image, entry_image, package_entry, image_type, remember,
  cmd_write_firmware_image,
}

module _ {W : Type 0} (os : Os W) (system : System W) where
  gather-concat_all :
      (total : ℕ) (done : Bytes) (cs : List Bytes) (b : Bytes)
      → gather os system total done cs ≡ some b
      → b ≡ done ++ concat_all cs
  unfolding gather concat_all
  gather-concat_all total done [] b h = sym (eq_of_some h) ∙ sym (append-nil done)
  gather-concat_all total done (c ∷ cs) b h =
      elim (Bool-cases (ltb total (length done + length c))) [
        | inl t ↦ absurd (ground (arith, rw t at h))
        | inr t ↦
            gather-concat_all total (done ++ c) cs b (rw t at h)
            ∙ append_assoc done c (concat_all cs)
      ]

  -- All the bytes of the entry, as many as the archive says.
  pub record IsImage (e : ℕ) (w : W) (bytes : Bytes) : Type 0 where
    pub complete : (system.chunks e w).1 ≡ true
    pub contents : bytes ≡ concat_all (system.chunks e w).0
    pub length_eq : length bytes ≡ system.uncomp_len e w

  image-IsImage : (e : ℕ) (w : W) (b : Bytes) → image os system e w ≡ some b → IsImage e w b
  unfolding image
  image-IsImage e w b h =
      let (bytes, g, kept) =
        >>=-eq-some (gather os system (system.uncomp_len e w) [] (system.chunks e w).0) _ h in
      elim (Bool-cases ((system.chunks e w).1 && (length bytes == system.uncomp_len e w))) [
        | inl t ↦
            let both = &&-eq-true _ _ t in
            let same = eq_of_some (rw t at kept) in
            subst (λ x. IsImage e w x) same
              (record {
                complete = both.0;
                contents =
                    gather-concat_all (system.uncomp_len e w) [] (system.chunks e w).0 bytes g;
                length_eq = (==_iff _ _).0 both.1;
              })
        | inr t ↦ absurd (ground (arith, rw t at kept))
      ]

  -- The two commands, and the type of image that each one writes.
  pub data TypeOf (name type : Bytes) : Type 0 where
    radio : name ≡ codes "write_radio_image" → type ≡ codes "radio" → TypeOf name type
    hboot : name ≡ codes "write_hboot_image" → type ≡ codes "hboot" → TypeOf name type

  image_type-TypeOf : (name type : Bytes) → image_type os system name ≡ some type → TypeOf name type
  unfolding image_type
  image_type-TypeOf name type h = elim (Bool-cases (bytes_eq name (codes "write_radio_image"))) [
    | inl t ↦ radio ((bytes_eq_iff name _).0 t) (ground arith)
    | inr t ↦ elim (Bool-cases (bytes_eq name (codes "write_hboot_image"))) [
      | inl u ↦ hboot ((bytes_eq_iff name _).0 u) (ground arith)
      | inr u ↦ absurd (ground arith)
    ]
  ]

  -- What a script has left: the type that goes with the command's name, and the whole entry at the path,
  -- where no image was remembered before.
  pub record Remembered (name path : Bytes) (s s' : World W) : Type 0 where
    pub entry : ℕ
    pub type : Bytes
    pub bytes : Bytes
    pub found : package_entry os system path s.sys ≡ some entry
    pub named : TypeOf name type
    pub is_image : IsImage entry s.sys bytes
    pub none_before : (is_some s.firmware.update_type || is_some s.firmware.update_data) ≡ false
    pub remembered : s' ≡ record s {
      firmware = record {
        update_type = some type;
        update_data = some bytes;
        update_length = length bytes;
      };
    }

  kept : Bytes → Bytes → World W → World W
  kept type bytes s = record s {
    firmware = record {
      update_type = some type;
      update_data = some bytes;
      update_length = length bytes;
    };
  }

  remember-pos :
      (t b : Option Bytes) (s s' : World W)
      → remember os system t b s ≡ (pos 0, s')
      → (type : Bytes) × (bytes : Bytes) × (t ≡ some type)
        × (b ≡ some bytes)
        × ((is_some s.firmware.update_type || is_some s.firmware.update_data) ≡ false)
        × (s' ≡ kept type bytes s)
  unfolding remember remember_firmware_update kept
  remember-pos none b s s' h = absurd (ground (arith, ap (λ r. r.0) h))
  remember-pos (some type) none s s' h = absurd (ground (arith, ap (λ r. r.0) h))
  remember-pos (some type) (some bytes) s s' h =
      elim (Bool-cases (is_some s.firmware.update_type || is_some s.firmware.update_data)) [
        | inl t ↦ absurd (ground (arith, ap (λ r. r.0) (rw t at h)))
        | inr t ↦ (type, bytes, refl, refl, t, sym (ap (λ r. r.1) (rw t at h)))
      ]

  entry_image-some :
      (o : Option ℕ) (w : W) (b : Bytes)
      → entry_image os system o w ≡ some b
      → (e : ℕ) × (o ≡ some e) × IsImage e w b
  unfolding entry_image
  entry_image-some none w b h = absurd (ground (arith, h))
  entry_image-some (some e) w b h = (e, refl, image-IsImage e w b h)

  -- If `cmd_write_firmware_image` returns 0, it was called by the name write_radio_image or
  -- write_hboot_image, with one argument, the path of a package entry; the whole entry is remembered,
  -- with the type "radio" for the first name and "hboot" for the second, and nothing else has changed;
  -- and no image was remembered before.
  pub cmd_write_firmware_image-Remembered :
      (name : Bytes) (args : List Bytes) (s s' : World W)
      → cmd_write_firmware_image os system name args s ≡ (pos 0, s')
      → (path : Bytes) × (args ≡ path ∷ [])
        × (is_package_root_path path ≡ true)
        × Remembered name path s s'
  unfolding cmd_write_firmware_image kept
  cmd_write_firmware_image-Remembered name [] s s' h = absurd (ground (arith, ap (λ r. r.0) h))
  cmd_write_firmware_image-Remembered name (a ∷ b ∷ more) s s' h =
      absurd (ground (arith, ap (λ r. r.0) h))
  cmd_write_firmware_image-Remembered name (path ∷ []) s s' h =
      elim (Bool-cases (is_package_root_path path)) [
        | inr t ↦ absurd (ground (arith, ap (λ r. r.0) (rw t at h)))
        | inl t ↦
            let (type, bytes, named, held, before, same) =
              remember-pos (image_type os system name)
                (entry_image os system (package_entry os system path s.sys) s.sys) s s'
                (rw t at h) in
            let (e, found, is_image) =
              entry_image-some (package_entry os system path s.sys) s.sys bytes held in
            (
              path,
              refl,
              t,
              record {
                entry = e;
                type = type;
                bytes = bytes;
                found = found;
                named = image_type-TypeOf name type named;
                is_image = is_image;
                none_before = before;
                remembered = same;
              },
            )
      ]
