-- ===== src/Install/Installed.antt =====
-- What the success of an installation rests on.
use recovery_sdx.Base.{
  ℕ, ◌≡◌, refl, ap, inl, inr, ◌⊎◌, Bool, true, false, Option, none, some, Bytes, arith, Bool-cases,
  Option-cases, eq_of_some, >>=-eq-some, ◌>>=◌,
}
use recovery_sdx.Base.Int.{ℤ, is_nonzero}
use recovery_sdx.Os.{Os}
use recovery_sdx.Roots.{translate_root_path, ensure_root_path_mounted}
use recovery_sdx.Commands.Device.{World}
use recovery_sdx.Recovery.Main.{Status, install_success}
use recovery_sdx.Install.{
  script_name, binary_name, Package, Session, Outcome, with_sys, finished, run_update_binary,
  executed, read_data, handle_update_script, unregistered, unregister, fall_back,
  handle_update_package, install_at, install_package, register_package_root,
}

module _ {W : Type 0} (os : Os W) (pkg : Package W) where
  -- The update binary was copied, and ended with status 0.
  pub record Ran (e : ℕ) (path : Bytes) (w : W) : Type 0 where
    pub created : (pkg.creat_binary w).0 ≡ true
    pub copied : (pkg.extract_binary e (pkg.creat_binary w).1).0 ≡ true
    pub exited : (pkg.run_binary path (pkg.extract_binary e (pkg.creat_binary w).1).1).0.1 ≡ true

  -- The script was parsed and executed to its end, with `path` as the package's root.
  pub record Executed (e : ℕ) (path : Bytes) (s : Session W) : Type 0 where
    pub text : Bytes
    pub run : Option Bytes → World W → ℤ × World W
    pub found : read_data os pkg e s.world.sys ≡ some text
    pub parsed : pkg.script text ≡ some run
    pub no_failure : is_nonzero (run (some path) s.world).0 ≡ false

  finished-success :
      (exited : Bool) (s s' : Session W) (f : Option (Option (Bytes × Bytes)))
      → finished os pkg exited s f ≡ some (install_success, s')
      → exited ≡ true
  unfolding finished
  finished-success true s s' f h = refl
  finished-success false s s' none h = absurd (ground (arith, h))
  finished-success false s s' (some f) h = absurd (ground (arith, ap (λ x. x.0) (eq_of_some h)))

  run_update_binary-Ran :
      (e : ℕ) (path : Bytes) (s s' : Session W)
      → run_update_binary os pkg e path s ≡ some (install_success, s')
      → Ran e path s.world.sys
  unfolding run_update_binary finished
  run_update_binary-Ran e path s s' h = elim (Bool-cases (pkg.creat_binary s.world.sys).0) [
    | inr t ↦ absurd (ground (arith, ap (λ x. x.0) (eq_of_some (rw t at h))))
    | inl t ↦ elim (Bool-cases (pkg.extract_binary e (pkg.creat_binary s.world.sys).1).0) [
      | inr u ↦ absurd (ground (arith, ap (λ x. x.0) (eq_of_some (rw (t, u) at h))))
      | inl u ↦ record {
        created = t;
        copied = u;
        exited = finished-success _ _ s' _ (rw (t, u) at h);
      }
    ]
  ]

  executed-success :
      (o : Option (Option Bytes → World W → ℤ × World W)) (s : Session W)
      → (executed os pkg o s).0 ≡ install_success
      → (run : Option Bytes → World W → ℤ × World W) × (o ≡ some run)
        × (is_nonzero (run s.package_root s.world).0 ≡ false)
  unfolding executed
  executed-success none s h = absurd (ground (arith, h))
  executed-success (some run) s h = elim (Bool-cases (is_nonzero (run s.package_root s.world).0)) [
    | inl t ↦ absurd (ground (arith, rw t at h))
    | inr t ↦ (run, refl, t)
  ]

  handle_update_script-Executed :
      (e : ℕ) (path : Bytes) (s : Session W)
      → (handle_update_script os pkg e (register_package_root os pkg (some path) s)).0
        ≡ install_success
      → Executed e path s
  unfolding handle_update_script register_package_root
  handle_update_script-Executed e path s h =
      let t = register_package_root os pkg (some path) s in
      let (run, found, fine) =
        executed-success (read_data os pkg e s.world.sys >>= pkg.script) t h in
      let (text, data_read, parsed) =
        >>=-eq-some (read_data os pkg e s.world.sys) pkg.script found in
      record { text = text; run = run; found = data_read; parsed = parsed; no_failure = fine }

  -- An update binary ran, or there is none and a script was executed, with the package registered.
  abbrev pub Handled : Bytes → Session W → Type 0
  Handled path s =
      ((e : ℕ) × (pkg.find binary_name s.world.sys ≡ some e) × Ran e path s.world.sys)
      ⊎ ((e : ℕ) × (pkg.find binary_name s.world.sys ≡ none)
          × (pkg.find script_name s.world.sys ≡ some e)
          × Executed e path s)

  fall_back-success :
      (o : Option ℕ) (path : Bytes) (s : Session W)
      → (fall_back os pkg o path s).0 ≡ install_success
      → (e : ℕ) × (o ≡ some e) × Executed e path s
  unfolding fall_back unregistered
  fall_back-success none path s h = absurd (ground (arith, h))
  fall_back-success (some e) path s h = (e, refl, handle_update_script-Executed e path s h)

  unregister-some :
      (o : Outcome W) (status : Status) (s' : Session W)
      → unregister os pkg o ≡ some (status, s')
      → (s : Session W) × (o ≡ some (status, s))
  unfolding unregister unregistered
  unregister-some none status s' h = absurd (ground (arith, h))
  unregister-some (some (t, s)) status s' h =
      (s, ap (λ x. some (x, s)) (ap (λ x. x.0) (eq_of_some h)))

  handle_update_package-Handled :
      (o : Option ℕ) (path : Bytes) (s s' : Session W)
      → pkg.find binary_name s.world.sys ≡ o
      → handle_update_package os pkg o path s ≡ some (install_success, s')
      → Handled path s
  unfolding handle_update_package
  handle_update_package-Handled (some e) path s s' f h =
      let (v, ran) = unregister-some (run_update_binary os pkg e path s) install_success s' h in
      inl (e, f, run_update_binary-Ran e path s v ran)
  handle_update_package-Handled none path s s' f h =
      let (e, found, done) =
        fall_back-success (pkg.find script_name s.world.sys) path s
          (ap (λ x. x.0) (eq_of_some h)) in
      inr (e, f, found, done)

  -- What `install_package` did up to the session `s` that the package is handled in.
  pub record Installed (root_path : Bytes) (start : Session W) : Type 0 where
    pub path : Bytes
    pub mounted : is_nonzero (ensure_root_path_mounted os root_path start.world.sys).0 ≡ false
    pub translated : translate_root_path root_path 4096 ≡ some path
    pub opened :
        (pkg.open_archive path (ensure_root_path_mounted os root_path start.world.sys).1).0 ≡ true
    pub handled : Handled path (
        with_sys os pkg start
          (pkg.open_archive path (ensure_root_path_mounted os root_path start.world.sys).1).1)

  -- If `install_package` returns INSTALL_SUCCESS, the root was mounted and the archive at the translated
  -- path opened; then its update binary was copied and ended with status 0, or there is none, and its
  -- script was parsed and executed with no failure, while `g_package_path` was this path.
  pub install_package-Installed :
      (root_path : Bytes) (s s' : Session W)
      → install_package os pkg root_path s ≡ some (install_success, s')
      → Installed root_path s
  unfolding install_package install_at with_sys
  install_package-Installed root_path s s' h =
      let (ret, w) = ensure_root_path_mounted os root_path s.world.sys in
      elim (Bool-cases (is_nonzero ret)) [
        | inl t ↦ absurd (ground (arith, ap (λ x. x.0) (eq_of_some (rw t at h))))
        | inr t ↦ elim (Option-cases (translate_root_path root_path 4096)) [
          | inl n ↦ absurd (ground (arith, ap (λ x. x.0) (eq_of_some (rw (t, n) at h))))
          | inr (path, p) ↦ elim (Bool-cases (pkg.open_archive path w).0) [
            | inr u ↦ absurd (ground (arith, ap (λ x. x.0) (eq_of_some (rw (t, p, u) at h))))
            | inl u ↦ record {
              path = path;
              mounted = t;
              translated = p;
              opened = u;
              handled =
                  handle_update_package-Handled (pkg.find binary_name (pkg.open_archive path w).1)
                    path (with_sys os pkg s (pkg.open_archive path w).1) s' refl
                    (rw (t, p, u) at h);
            }
          ]
        ]
      ]
